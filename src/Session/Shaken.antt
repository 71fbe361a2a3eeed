-- ===== src/Session/Shaken.antt =====
-- The first three states of a session in the loop of `start`, at either end.
use udm.Base.{
  ℕ, suc, ◌+◌, ◌*◌, ◌≤◌, ◌<◌, ◌^◌, ◌≡◌, refl, sym, ap, ◌∙◌, none, not, true, false, List, [], ◌∷◌,
  ◌++◌, arith, length, length-take, keep, count, has_bits, min,
}
use udm.Wire.{CapsuleHdr, IsHdr, StateCode, tx, rx, encode, header_space, payld}
use udm.World.{World, Ref, Address, Arrival, datagram, SockAddr}
use udm.Session.Peers.{addr_len, is_localhost}
use udm.Session.Peers.Localhost.{strip_localhost_lem}
use udm.Session.Peers.Told.{AllWhole, bytes_of}
use udm.Session.States.{state_loop, step}
use udm.Session.Loop.{state_loop-on, state_loop-step}
use udm.Session.Hello.{hello_said, open_state-rx}
use udm.Session.Telling.{IsTelling}
use udm.Session.Greeting.{hi_said, setup_state-tx}
use udm.Session.Answering.{ack_said, connected_state-rx}
use udm.Session.Hearing.{
  stripped, hello_heard, hi_heard, ack_heard, open_state-tx, setup_state-rx, connected_state-tx,
}
use udm.Session.Connections.{IsConns}

-- A session that has not begun, on a network that takes all capsules.
pub record IsNew (w : World) : Type 0 where
  pub at_open : w.session.next ≡ StateCode.open_state
  pub unfinished : w.session.complete ≡ false
  pub idle : w.session.tasks ≡ []
  pub empty : w.rx_factory.buffer ≡ []
  pub idle_tx : w.tx_factory.buffer ≡ []
  pub telling : IsTelling w
  pub untold : w.gateway.peer_address_list ≡ none
  pub sent : (i : ℕ) → w.env.send_fails i ≡ false
  pub conns : IsConns w.session.connections

-- Addresses of the other end: one of them at most is the loopback address, and there are others.
pub record IsPeers (addresses : List Address) : Type 0 where
  pub whole : AllWhole addresses
  pub few : count is_localhost addresses ≤ 1
  pub some_other : 0 < length (keep (λ a. not (is_localhost a)) addresses)
  pub small : addr_len * length addresses < 2 ^ 16

-- What is kept of them can be used in turn.
pub stripped-bounds :
    (w : World) (addresses : List Address)
    → IsPeers addresses
    → (0 < (stripped w addresses).address_count)
      × ((stripped w addresses).address_count ≤ length (stripped w addresses).addresses)
stripped-bounds w addresses v =
    let s = stripped w addresses in
    let small = v.small in
    let some_other = v.some_other in
    let (counted, kept) = strip_localhost_lem w.env.past_end addresses v.few (omega arith) in
    let taken : min s.address_count (length s.addresses) ≡ s.address_count =
      sym (length-take s.address_count s.addresses) ∙ ap length kept ∙ sym counted in
    (omega arith, omega arith)

-- A capsule with addresses behind its header.
pub record IsTold (size : ℕ) (h : CapsuleHdr) (addresses : List Address) : Type 0 where
  pub valid : IsHdr h
  pub fits : header_space + length (bytes_of addresses) ≤ size
  pub kind : has_bits h.cap_type payld ≡ false
  pub counted : h.cap_size ≡ addr_len * length addresses

-- A sender that has heard the headers `h` and `g`, and the addresses of the receiver.
abbrev pub sender_shaken :
    World → CapsuleHdr → CapsuleHdr → List Address → SockAddr → List Arrival → World
sender_shaken w h g addresses from rest =
    ack_heard (hi_said (hello_heard w h from [])) g addresses from rest

pub sender_greets :
    (fuel : ℕ) (r : Ref) (w : World) (h g : CapsuleHdr) (addresses : List Address) (from : SockAddr)
    (rest : List Arrival)
    → IsNew w
    → w.incoming
      ≡ datagram (encode h) from true ∷ datagram (encode g ++ bytes_of addresses) from true ∷ rest
    → IsHdr h
    → IsTold w.rx_factory.chunk_size g addresses
    → AllWhole addresses
    → state_loop (suc (suc (suc fuel))) tx r w
      ≡ state_loop fuel tx r (sender_shaken w h g addresses from rest)
unfolding step
sender_greets fuel r w h g addresses from rest v came valid told whole =
    let more = datagram (encode g ++ bytes_of addresses) from true ∷ rest in
    let w1 = hello_heard w h from more in
    let w2 = hi_said w1 in
    let fits = told.fits in
    let t = v.telling in
    let telling : IsTelling w1 = record {
      whole = t.whole;
      counted = t.counted;
      succeeds = t.succeeds;
      fits = t.fits;
      small = t.small;
    } in
    state_loop-step (suc (suc fuel)) tx r w w1 StateCode.open_state v.at_open refl
      (open_state-tx r w h from more came valid (omega arith) v.empty)
    ∙ state_loop-step (suc fuel) tx r w1 w2 StateCode.setup refl refl
        (setup_state-tx r w1 v.idle_tx telling v.untold (v.sent _))
    ∙ state_loop-on fuel tx r w2 _ StateCode.connected refl v.unfinished (
        connected_state-tx r w2 g addresses from true rest refl told.valid told.fits told.kind refl
          whole told.counted)

-- A receiver that has heard the header `h` and the addresses of the sender.
abbrev pub receiver_shaken : World → CapsuleHdr → List Address → SockAddr → List Arrival → World
receiver_shaken w h addresses from rest =
    ack_said (hi_heard (hello_said w) h addresses from rest) (stripped w addresses).addresses

pub receiver_greets :
    (fuel : ℕ) (r : Ref) (w : World) (h : CapsuleHdr) (addresses : List Address) (from : SockAddr)
    (rest : List Arrival)
    → IsNew w
    → w.incoming ≡ datagram (encode h ++ bytes_of addresses) from true ∷ rest
    → IsTold w.rx_factory.chunk_size h addresses
    → IsPeers addresses
    → w.addr_index + 1 < 2 ^ 31
    → state_loop (suc (suc (suc fuel))) rx r w
      ≡ state_loop fuel rx r (receiver_shaken w h addresses from rest)
unfolding step
receiver_greets fuel r w h addresses from rest v came told peers no_wrap =
    let w1 = hello_said w in
    let w2 = hi_heard w1 h addresses from rest in
    let t = v.telling in
    let fits = t.fits in
    let telling : IsTelling w2 = record {
      whole = t.whole;
      counted = t.counted;
      succeeds = t.succeeds;
      fits = t.fits;
      small = t.small;
    } in
    let bounds = stripped-bounds w addresses peers in
    state_loop-step (suc (suc fuel)) rx r w w1 StateCode.open_state v.at_open refl
      (open_state-rx r w v.idle_tx (omega arith) v.untold (v.sent _))
    ∙ state_loop-step (suc fuel) rx r w1 w2 StateCode.setup refl refl (
        setup_state-rx r w1 h addresses from true rest came told.valid told.fits told.kind v.empty
          peers.whole told.counted)
    ∙ state_loop-on fuel rx r w2 _ StateCode.connected refl v.unfinished (
        connected_state-rx r w2 (stripped w addresses).addresses refl telling
          (record { told = refl; some_left = bounds.0; within = bounds.1; no_wrap = no_wrap })
          (v.sent _))
