-- ===== src/Session/States.antt =====
-- session.h: the states of a session, `submitTask`, and the loop of `Session::start`. A state takes
-- the code under which it is called, the direction of the session and the buffer that `start` made.
mod Handshake
pub use Handshake.{set_next, current, set_current, params_for}
unfoldable pub use Handshake.{
  add_connection, send_state, receive_pulled, receive_state, take_received, drop_front, send_new,
  open_state, setup_state, connected_state,
}
use udm.Base.{
  ℕ, zero, suc, ◌-◌, Option, none, some, Bool, true, false, List, [], ◌∷◌, ◌==◌, ltb, if◌then◌else◌,
  ◌&&◌, has_bits, length,
}
use udm.Wire.{StateCode, StateDirection, tx, rx, ctrl, payld, fin_flag}
use udm.World.{
  World, M, Capsule, Ref, Connection, exited, stuck, out_of_fuel, stop, the, gets, modify, skip,
  set_session, ◌>>=◌, ◌>>◌,
}
use udm.World.Memory.{alloc, free, load, store, load_cap, store_cap}
use udm.Factory.{add32, try_pop, drop_owned, update_data_source}
use udm.Gateway.{chunk_write, send, pull, receive}
use udm.Presentation
use udm.Presentation.{new_buffer, construct_chunk}
use udm.Session.Processor.{
  Params, win_siz, gen_src_id, gen_conn_id, insert_window, set_win_size, set_cap_params, process,
}

-- The last capsule of the file carries FIN and ends the window.
unfoldable pub mark_last : Ref → M (Unit {0})
unfolding load_cap store_cap
mark_last r = do
  c ← load_cap r
  store_cap r (record c { header = record c.header { cap_flags = fin_flag } })
  set_win_size 0

-- The end of the case TX of `submitTask`: the capsule is filled in, sent and given up.
unfoldable pub deliver : StateCode → Ref → M (Unit {0})
unfolding free
deliver next_id r = do
  Presentation.set_cap_params r
  w ← gets (λ w. w)
  set_cap_params r (params_for payld w) StateCode.closed
  send_state next_id tx r
  free r

-- The case TX of `submitTask`.
unfoldable pub submit_chunk : StateCode → M (Unit {0})
unfolding mark_last deliver update_data_source construct_chunk
submit_chunk next_id = do
  update_data_source tx
  r ← construct_chunk
  w ← gets (λ w. w)
  if w.tx_factory.fin && (length w.tx_factory.buffer == 0) then mark_last r else skip
  deliver next_id r

-- `rxcurrentWindow.rbegin()->second`
abbrev pub last_ref : List (ℕ × Ref) → Option Ref
last_ref [] = none
last_ref ((k, r) ∷ []) = some r
last_ref ((k, r) ∷ e ∷ rest) = last_ref (e ∷ rest)

-- FIN is noted in the buffer of the caller, if that has a capsule.
abbrev note_fin : Ref → M (Unit {0})
note_fin current_buffer = do
  b ← load current_buffer
  elim b.cap [
    | none ↦ skip
    | some c ↦
        store current_buffer
          (record b { cap = some (record c { header = record c.header { cap_flags = fin_flag } }) })
  ]

-- What the case RX of `submitTask` does with the highest entry of the window.
unfoldable pub accept_payload : Ref → Ref → M (Unit {0})
unfolding load load_cap store
accept_payload current_buffer r = do
  process rx r StateCode.closed
  w ← gets (λ w. w)
  if w.rx_factory.fin then set_win_size 0 else skip
  c ← load_cap r
  if has_bits c.header.cap_flags fin_flag then note_fin current_buffer else skip

-- The case RX of `submitTask`.
unfoldable pub await_payload : StateCode → Ref → M (Unit {0})
unfolding accept_payload alloc free
await_payload next_id current_buffer = do
  buf ← alloc (record { size = 0; cap = none })
  receive_state next_id rx buf
  w ← gets (λ w. w)
  elim (last_ref w.window) [ none ↦ skip | some r ↦ accept_payload current_buffer r ]
  free buf

-- `submitTask`
unfoldable pub submit_task : StateCode → StateDirection → Ref → M (Unit {0})
unfolding submit_chunk await_payload
submit_task next_id tx current_buffer = submit_chunk next_id
submit_task next_id rx current_buffer = await_payload next_id current_buffer

-- `if (winSize) winSize--`
abbrev pub close_window : M (Unit {0})
close_window = modify (set_session (λ s. record s { win_size = s.win_size - 1 }))

-- The loop of `closedState`, whose window size falls in each round: the fuel is the size at the start.
unfoldable pub window_loop : ℕ → StateCode → StateDirection → Ref → M (Unit {0})
window_loop zero next_id d current_buffer w =
    if ltb 0 w.session.win_size then stop out_of_fuel w else skip w
window_loop (suc fuel) next_id d current_buffer w =
    let rest = window_loop fuel next_id d current_buffer in
    let round = (do submit_task next_id d current_buffer; close_window; rest) in
    if ltb 0 w.session.win_size then round w else skip w

unfoldable pub closed_state : StateCode → StateDirection → Ref → M (Unit {0})
unfolding window_loop
closed_state next_id d current_buffer = do
  w ← gets (λ w. w)
  window_loop w.session.win_size next_id d current_buffer
  w ← gets (λ w. w)
  if length w.session.tasks == 0 then skip else stop stuck
  set_next StateCode.done

-- Where `doneState` goes: on with the next window, or to the end.
abbrev pub after_window : Bool → M (Unit {0})
after_window fin =
    if fin then set_next StateCode.connected else do set_win_size win_siz; set_next StateCode.closed

abbrev pub set_complete : M (Unit {0})
set_complete = modify (set_session (λ s. record s { done = true; complete = true }))

-- `for (i …) rxFactory->buffer.try_pop()`
unfoldable pub drop_window : ℕ → M (Unit {0})
unfolding drop_front
drop_window zero = skip
drop_window (suc n) = do drop_front rx; drop_window n

unfoldable pub done_state : StateCode → StateDirection → Ref → M (Unit {0})
unfolding take_received drop_window
done_state next_id tx current_buffer = do
  receive_state next_id tx current_buffer
  take_received StateCode.done (λ c. skip)
  w ← gets (λ w. w)
  after_window w.tx_factory.fin
  set_complete
done_state next_id rx current_buffer = do
  w ← gets (λ w. w)
  let buffer_empty = w.rx_factory.fin
  Presentation.process rx w.window StateCode.done
  r ← new_buffer tx
  w ← gets (λ w. w)
  drop_window (length w.window)
  modify (λ w. record w { window = [] })
  w ← gets (λ w. w)
  let p = params_for ctrl w
  let p' = if buffer_empty then record p { cap_flags = fin_flag } else p
  set_cap_params r p' StateCode.done
  send_state next_id rx r
  w ← gets (λ w. w)
  after_window w.rx_factory.fin
  set_complete

-- `states[(int)next]((int)next, Dir, newBuff)`. `inqState` does nothing.
unfoldable pub step : StateDirection → Ref → StateCode → M (Unit {0})
step d r StateCode.open_state = open_state StateCode.open_state d r
step d r StateCode.setup = setup_state StateCode.setup d r
step d r StateCode.connected = connected_state StateCode.connected d r
step d r StateCode.closed = closed_state StateCode.closed d r
step d r StateCode.done = done_state StateCode.done d r
step d r StateCode.inq = skip
step d r StateCode.send = send_state StateCode.send d r
step d r StateCode.recv = receive_state StateCode.recv d r

abbrev pub is_connected : StateCode → Bool
is_connected StateCode.connected = true
is_connected _ = false

-- The loop of `start` ends.
abbrev pub is_over : World → Bool
is_over w = is_connected w.session.next && w.session.complete

-- `while (next != connected || complete != true)`
unfoldable pub state_loop : ℕ → StateDirection → Ref → M (Unit {0})
unfolding step
state_loop zero d r w = if is_over w then skip w else stop out_of_fuel w
state_loop (suc fuel) d r w =
    let rest = state_loop fuel d r in
    let round = (do step d r w.session.next; rest) in if is_over w then skip w else round w

abbrev restart : StateCode → M (Unit {0})
restart StateCode.done = set_next StateCode.connected
restart _ = skip

-- `Session::start`
unfoldable pub start : ℕ → StateDirection → M (Unit {0})
unfolding state_loop alloc free
start fuel d = do
  r ← alloc (record { size = 0; cap = none })
  w ← gets (λ w. w)
  restart w.session.next
  state_loop fuel d r
  free r
