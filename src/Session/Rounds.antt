-- ===== src/Session/Rounds.antt =====
-- A window of the sender: the loop of `closedState` over the chunks of the file.
use udm.Base.{
  ℕ, zero, suc, ◌+◌, ◌-◌, ◌≤◌, ◌<◌, ◌^◌, ◌≡◌, refl, ap, sym, true, false, none, some, List, [], ◌∷◌,
  ◌++◌, arith, length, drop, lt→ltb, drop-length-append,
}
use udm.Wire.{header_space, StateCode, StateDirection, tx}
use udm.Wire.RoundTrip.{length-encode}
use udm.World.{World, ok, DataSource, Address, Packet, Ref}
use udm.World.Memory.{put}
use udm.Factory.{add32}
use udm.Factory.Load.{at_chunk, IsReading, next_bytes, is_short, after_chunk}
use udm.Gateway.Send.{IsRouted}
use udm.Session.States.{submit_task, window_loop}
use udm.Session.Sender.{chunk_packet, chunk_sent, submit_chunk-more}

-- What the datagrams carry behind their headers.
abbrev pub payloads : List Packet → List ℕ
payloads [] = []
payloads (p ∷ rest) = drop header_space p.bytes ++ payloads rest

-- The network takes what is sent, and `k` more sends do not wrap the counter of addresses.
pub record IsOpen (w : World) (addresses : List Address) (k : ℕ) : Type 0 where
  pub told : w.gateway.peer_address_list ≡ some addresses
  pub some_left : 0 < w.gateway.peer_address_count
  pub within : w.gateway.peer_address_count ≤ length addresses
  pub no_wrap : w.addr_index + k < 2 ^ 31
  pub sent : (i : ℕ) → w.env.send_fails i ≡ false

-- Less room is enough for fewer sends.
pub IsOpen-le :
    (w : World) (addresses : List Address) (j k : ℕ)
    → j ≤ k
    → IsOpen w addresses k
    → IsOpen w addresses j
IsOpen-le w addresses j k le v = record {
  told = v.told;
  some_left = v.some_left;
  within = v.within;
  no_wrap = (let b = v.no_wrap in omega arith);
  sent = v.sent;
}

pub routed :
    (w : World) (addresses : List Address) (k : ℕ)
    → IsOpen w addresses (suc k)
    → IsRouted w addresses
routed w addresses k v = record {
  told = v.told;
  some_left = v.some_left;
  within = v.within;
  no_wrap = omega arith;
}

-- The world after a chunk that was not the last, but for the factory.
abbrev pub round_done : World → DataSource → ℕ → List Address → World
round_done w s n addresses = record w {
  mem = put w.mem w.fresh none;
  fresh = suc w.fresh;
  session = record w.session {
    capsule_id = add32 w.session.capsule_id 1;
    win_size = w.session.win_size - 1;
  };
  addr_index = w.addr_index + 1;
  sends = suc w.sends;
  outgoing = w.outgoing ++ chunk_packet w s n addresses ∷ [];
}

pub payloads-packet :
    (w : World) (s : DataSource) (n : ℕ) (addresses : List Address) (rest : List Packet)
    → payloads (chunk_packet w s n addresses ∷ rest) ≡ next_bytes s n ++ payloads rest
payloads-packet w s n addresses rest =
    ap (λ bs. bs ++ payloads rest)
      (drop-length-append _ (next_bytes s n) header_space (sym (length-encode _)))

pub window_loop-stop :
    (fuel : ℕ) (d : StateDirection) (r : Ref) (w : World)
    → w.session.win_size ≡ 0
    → window_loop fuel StateCode.closed d r w ≡ ok tt w
unfolding window_loop
window_loop-stop zero d r w e = rw e
window_loop-stop (suc fuel) d r w e = rw e

-- A round whose chunk is full.
pub window_loop-full :
    (fuel : ℕ) (r : Ref) (w : World) (s : DataSource) (n : ℕ) (addresses : List Address)
    → IsReading s n
    → s.pos < s.file_size
    → is_short s n ≡ false
    → IsRouted w addresses
    → w.env.send_fails w.sends ≡ false
    → 0 < w.session.win_size
    → window_loop (suc fuel) StateCode.closed tx r (at_chunk w s n)
      ≡ window_loop fuel StateCode.closed tx r
          (at_chunk (round_done w s n addresses) (after_chunk s n) n)
unfolding window_loop submit_task
window_loop-full fuel r w s n addresses v more full routes sent open_window =
    rw
      (
        lt→ltb 0 w.session.win_size open_window,
        submit_chunk-more w s n addresses v more routes sent,
        window_loop,
      )
      (rw full)

-- A round whose chunk is the last.
pub window_loop-short :
    (fuel : ℕ) (r : Ref) (w : World) (s : DataSource) (n : ℕ) (addresses : List Address)
    → IsReading s n
    → s.pos < s.file_size
    → is_short s n ≡ true
    → IsRouted w addresses
    → w.env.send_fails w.sends ≡ false
    → 0 < w.session.win_size
    → window_loop (suc fuel) StateCode.closed tx r (at_chunk w s n)
      ≡ ok tt (chunk_sent w s n addresses)
unfolding window_loop submit_task
window_loop-short fuel r w s n addresses v more short routes sent open_window =
    rw
      (
        lt→ltb 0 w.session.win_size open_window,
        submit_chunk-more w s n addresses v more routes sent,
        window_loop,
      )
      (rw short (window_loop-stop fuel tx r _ refl))
