-- ===== src/Session/States/Handshake.antt =====
-- session.h: what the state functions share, and the states up to `connectedState`, in which the two
-- ends tell each other their addresses.
use udm.Base.{ℕ, none, some, ◌==◌, if◌then◌else◌, has_bits}
use udm.Wire.{StateCode, StateDirection, tx, rx, ctrl, payld}
use udm.World.{
  World, M, Capsule, Ref, Connection, exited, stop, the, gets, modify, skip, set_session, ◌>>=◌,
  ◌>>◌,
}
use udm.World.Memory.{free, load, load_cap}
use udm.Factory.{add32, try_pop, drop_owned}
use udm.Gateway.{chunk_write, send, pull, receive}
use udm.Presentation.{new_buffer}
use udm.Session.Processor.{Params, gen_src_id, gen_conn_id, insert_window, set_cap_params, process}

abbrev pub set_next : StateCode → M (Unit {0})
set_next code = modify (set_session (λ s. record s { next = code }))

-- `session->connections[session->connection_count]`
abbrev pub current : World → Connection
current w = w.session.connections w.session.connection_count

abbrev pub set_current : Connection → M (Unit {0})
set_current c = modify (
    set_session
      (λ s. record s { connections = λ k. if k == s.connection_count then c else s.connections k }))

-- `connections[connection_count++] = connection{0, genSrcId(), 0, 0}`
unfoldable pub add_connection : M (Unit {0})
unfolding gen_src_id
add_connection = do
  id ← gen_src_id
  modify (
      set_session (λ s. record s {
        connections = λ k.
            if k == s.connection_count
            then record { id = 0; src = id; dst = 0; status = 0 }
            else s.connections k;
        connection_count = add32 s.connection_count 1;
      }))

-- The `struct params` that each state fills in.
abbrev pub params_for : ℕ → World → Params
params_for cap_type w = record {
  srcid = (current w).src;
  destid = (current w).dst;
  connid = (current w).id;
  capid = 0;
  cap_size = 0;
  cap_type = cap_type;
  cap_priority = 0;
  cap_win_siz = 0;
  cap_flags = 0;
  capopts = 0;
}

-- `sendState`
unfoldable pub send_state : StateCode → StateDirection → Ref → M (Unit {0})
send_state StateCode.open_state rx r = chunk_write r
send_state _ rx r = chunk_write r
send_state _ tx r = send r

-- What `receiveState` does outside `open`: a payload enters the window.
unfoldable pub receive_pulled : M (Unit {0})
unfolding load insert_window
receive_pulled = do
  res ← pull
  b ← load res
  elim b.cap [
    | none ↦ stop (exited 1)
    | some c ↦
        if has_bits c.header.cap_type payld
        then modify (λ w. record w { window = insert_window c.header.capid res w.window })
        else skip
  ]

-- `receiveState`
unfoldable pub receive_state : StateCode → StateDirection → Ref → M (Unit {0})
unfolding receive_pulled
receive_state StateCode.open_state d r = receive r
receive_state _ d r = receive_pulled

-- `buf = rxFactory->buffer.try_pop(); process(rxFactory, buf.get(), code)`, and what the state does
-- with the capsule before `buf` goes out of scope.
unfoldable pub take_received : StateCode → (Capsule → M (Unit {0})) → M (Unit {0})
unfolding try_pop load_cap free
take_received code use_it = do
  buf ← try_pop rx
  r ← the buf
  process rx r code
  c ← load_cap r
  use_it c
  free r

-- `txFactory->buffer.try_pop()`, its result dropped.
unfoldable pub drop_front : StateDirection → M (Unit {0})
unfolding try_pop free
drop_front d = do buf ← try_pop d; drop_owned buf

-- A new capsule of the given type, filled in for the state, and sent.
unfoldable pub send_new : StateCode → ℕ → StateCode → StateDirection → M (Unit {0})
send_new code cap_type next_id d = do
  r ← new_buffer tx
  w ← gets (λ w. w)
  set_cap_params r (params_for cap_type w) code
  send_state next_id d r

-- `connections[connection_count].dst = header.srcid`
abbrev save_peer : Capsule → M (Unit {0})
save_peer c = do w ← gets (λ w. w); set_current (record (current w) { dst = c.header.srcid })

-- `connections[connection_count].id = header.connid`
abbrev save_conn : Capsule → M (Unit {0})
save_conn c = do w ← gets (λ w. w); set_current (record (current w) { id = c.header.connid })

unfoldable pub open_state : StateCode → StateDirection → Ref → M (Unit {0})
unfolding add_connection take_received drop_front
open_state next_id tx current_buffer = do
  add_connection
  r ← new_buffer rx
  receive_state next_id tx r
  take_received StateCode.open_state save_peer
  set_next StateCode.setup
open_state next_id rx current_buffer = do
  r ← new_buffer tx
  add_connection
  w ← gets (λ w. w)
  set_cap_params r (params_for payld w) StateCode.open_state
  send_state next_id rx r
  drop_front tx
  set_next StateCode.setup

unfoldable pub setup_state : StateCode → StateDirection → Ref → M (Unit {0})
unfolding take_received drop_front send_new
setup_state next_id tx current_buffer = do
  send_new StateCode.setup ctrl next_id tx
  drop_front tx
  set_next StateCode.connected
setup_state next_id rx current_buffer = do
  receive_state next_id rx current_buffer
  take_received StateCode.setup save_peer
  set_next StateCode.connected

unfoldable pub connected_state : StateCode → StateDirection → Ref → M (Unit {0})
unfolding take_received drop_front send_new gen_conn_id
connected_state next_id tx current_buffer = do
  receive_state next_id tx current_buffer
  take_received StateCode.connected save_conn
  set_next StateCode.closed
connected_state next_id rx current_buffer = do
  id ← gen_conn_id
  w ← gets (λ w. w)
  set_current (record (current w) { id = id })
  send_new StateCode.connected ctrl next_id rx
  drop_front tx
  set_next StateCode.closed
