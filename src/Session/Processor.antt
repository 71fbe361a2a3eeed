-- ===== src/Session/Processor.antt =====
-- session.h: `SessionProcessor`, the generators of identifiers and the receive window.
use udm.Base.{
  ℕ, ◌+◌, ◌*◌, ◌%◌, ◌^◌, none, some, true, List, [], ◌∷◌, ◌==◌, ltb, if◌then◌else◌, has_bits,
  bit_and,
}
use udm.Wire.{CapsuleHdr, StateCode, StateDirection, ctrl, payld, fin_flag}
use udm.World.{
  M, Capsule, Ref, pure, gets, modify, skip, factory, set_factory, set_session, ◌>>=◌, ◌>>◌,
}
use udm.Gateway.Interfaces.{count_interfaces}
use udm.World.Memory.{load, store, load_cap}
use udm.Factory.{add32}
use udm.Session.Peers.{addr_len, write_addresses, take_peers}

-- WIN_SIZ
abbrev pub win_siz : ℕ
win_siz = 5

-- `struct params`, whose fields are those of a header.
abbrev pub Params : Type 0
Params = CapsuleHdr

-- `genSrcId`
unfoldable pub gen_src_id : M ℕ
gen_src_id w = let id = (w.prev_srcid + 1) % 2 ^ 8 in pure id (record w { prev_srcid = id })

-- `genDestId`, which nothing calls
unfoldable pub gen_dest_id : M ℕ
gen_dest_id w = let id = (w.prev_dstid + 1) % 2 ^ 8 in pure id (record w { prev_dstid = id })

-- `genConnId`
unfoldable pub gen_conn_id : M ℕ
gen_conn_id w = let id = (w.prev_connid + 1) % 2 ^ 16 in pure id (record w { prev_connid = id })

-- `rxcurrentWindow[key] = r`: the keys of the map ascend.
unfoldable pub insert_window : ℕ → Ref → List (ℕ × Ref) → List (ℕ × Ref)
insert_window key r [] = (key, r) ∷ []
insert_window key r ((k, s) ∷ rest) =
    if ltb key k
    then (key, r) ∷ (k, s) ∷ rest
    else if key == k
    then (key, r) ∷ rest
    else (k, s) ∷ insert_window key r rest

abbrev pub set_win_size : ℕ → M (Unit {0})
set_win_size n = modify (set_session (λ s. record s { win_size = n }))

-- The list of all interfaces behind the header, and its length as the size of the capsule.
abbrev tell_addresses : Capsule → M Capsule
tell_addresses c = do
  n ← count_interfaces
  c' ← write_addresses n 0 c
  pure (record c' { header = record c'.header { cap_size = addr_len * n % 2 ^ 16 } })

-- The `switch` of `setCapParams`.
unfoldable pub params_of : StateCode → Capsule → M Capsule
unfolding write_addresses
params_of StateCode.setup c = tell_addresses c
params_of StateCode.connected c = do
  set_win_size win_siz
  tell_addresses (record c { header = record c.header { cap_win_siz = win_siz } })
params_of StateCode.done c = pure (record c { header = record c.header { cap_win_siz = win_siz } })
params_of _ c = pure c

-- What `setCapParams` sets in every capsule.
abbrev pub with_params : CapsuleHdr → Params → ℕ → CapsuleHdr
with_params h p capsule_id = record h {
  srcid = p.srcid;
  destid = p.destid;
  connid = p.connid;
  capid = capsule_id % 2 ^ 16;
  cap_priority = 0;
  cap_type = p.cap_type;
}

-- `SessionProcessor::setCapParams`.
unfoldable pub set_cap_params : Ref → Params → StateCode → M (Unit {0})
unfolding load store params_of
set_cap_params r p code = do
  b ← load r
  elim b.cap [
    | none ↦ skip
    | some c ↦ do
      c' ← params_of code c
      w ← gets (λ w. w)
      modify (set_session (λ s. record s { capsule_id = add32 s.capsule_id 1 }))
      store r (record b {
        cap = some (record c' { header = with_params c'.header p w.session.capsule_id });
      })
  ]

-- The case `closed` of `process`: a payload enters the window, and FIN is noted.
unfoldable pub process_payload : StateDirection → Ref → Capsule → M (Unit {0})
unfolding insert_window
process_payload d r c = do
  if has_bits c.header.cap_type payld
      then modify (λ w. record w { window = insert_window c.header.capid r w.window })
      else skip
  if has_bits c.header.cap_flags fin_flag
      then modify (λ w. set_factory d (record (factory d w) { fin = true }) w)
      else skip

-- The `switch` of `process`.
unfoldable pub process_code : StateDirection → Ref → Capsule → StateCode → M (Unit {0})
unfolding process_payload take_peers
process_code d r c StateCode.setup = take_peers c
process_code d r c StateCode.connected = do set_win_size c.header.cap_win_siz; take_peers c
process_code d r c StateCode.closed = process_payload d r c
process_code d r c _ = skip

-- `SessionProcessor::process`. The test is against CTRL, which is zero.
unfoldable pub process : StateDirection → Ref → StateCode → M (Unit {0})
unfolding load_cap process_code
process d r code = do
  c ← load_cap r
  if bit_and c.header.cap_type ctrl == 0 then process_code d r c code else skip
