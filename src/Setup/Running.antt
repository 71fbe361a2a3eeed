-- ===== src/Setup/Running.antt =====
-- `io_context::run`, and the session that it makes.
use udm.Base.{
  ℕ, ◌+◌, ◌≤◌, ◌<◌, ◌≡◌, ◌^◌, refl, ap, suc, ◌-◌, not, none, List, [], ◌∷◌, length, map, count,
  keep, All, arith, replicate, length-append, length-replicate, inl, inr, Bool-cases, false,
}
use udm.Wire.{header_space}
use udm.World.{World, ok, Address}
use udm.Session.Peers.{addr_len, is_localhost}
use udm.Session.Peers.Told.{AllWhole, bytes_of}
use udm.Session.Greeting.{told_size-bytes_of}
use udm.Session.Shaken.{IsNew, IsPeers}
use udm.Setup.Texts.{Dotted, is_full, entry, overrun_by, HasInterfaces, phy_interfaces_lem}
use udm.Setup.Context.{run, new_session, alloc_chunk}

-- The addresses of a machine as its programs keep them.
abbrev pub addresses_of : World → List Address
addresses_of w = map (entry w.env.junk) w.env.interfaces

-- The world in which the session starts.
abbrev pub running : World → World
running w = record (overrun_by (w.overrun + count is_full w.env.interfaces) w) {
  gateway = record w.gateway {
    infc = length w.env.interfaces;
    address_list = addresses_of w;
    peer_address_list = none;
    peer_address_count = 0;
  };
  session = new_session;
}

pub run_lem : (w : World) → HasInterfaces w → run w ≡ ok tt (running w)
unfolding run
run_lem w interfaces = rw (phy_interfaces_lem w interfaces, run) refl

-- A machine whose interfaces can be had, whose network takes all capsules and that lists addresses that fit a chunk, one loopback
-- address at most among them and some other.
pub record IsHost (w : World) : Type 0 where
  pub interfaces : HasInterfaces w
  pub fit : length w.env.interfaces ≤ 3275
  pub few : count is_localhost (addresses_of w) ≤ 1
  pub some_other : 0 < length (keep (λ a. not (is_localhost a)) (addresses_of w))
  pub sent : (i : ℕ) → w.env.send_fails i ≡ false
  pub turns : w.addr_index < 2 ^ 30

length-entry : (junk : ℕ) (text : List ℕ) → Dotted text → length (entry junk text) ≡ addr_len
length-entry junk text dotted =
    let short = dotted.0 in
    elim (Bool-cases (is_full text)) [
      | inl full ↦ rw full (ground (arith, full))
      | inr less ↦ rw less (
          ground (
            arith,
            less,
            length-append text (0 ∷ replicate (14 - length text) junk),
            length-replicate (14 - length text) junk,
          ))
    ]

length-map : (junk : ℕ) (texts : List (List ℕ)) → length (map (entry junk) texts) ≡ length texts
length-map junk [] = refl
length-map junk (t ∷ texts) = ap suc (length-map junk texts)

entries-AllWhole :
    (junk : ℕ) (texts : List (List ℕ)) → All Dotted texts → AllWhole (map (entry junk) texts)
entries-AllWhole junk [] dotted = tt
entries-AllWhole junk (t ∷ texts) dotted =
    (length-entry junk t dotted.0, entries-AllWhole junk texts dotted.1)

pub addresses_of-IsPeers : (w : World) → IsHost w → IsPeers (addresses_of w)
addresses_of-IsPeers w v =
    let l = length-map w.env.junk w.env.interfaces in
    let fit = v.fit in
    record {
      whole = entries-AllWhole w.env.junk w.env.interfaces v.interfaces.dotted;
      few = v.few;
      some_other = v.some_other;
      small = omega arith;
    }

-- The addresses fit a chunk behind a header.
pub addresses_of-fit :
    (w : World) → IsHost w → header_space + length (bytes_of (addresses_of w)) ≤ alloc_chunk
addresses_of-fit w v =
    let l = length-map w.env.junk w.env.interfaces in
    let fit = v.fit in
    let whole = entries-AllWhole w.env.junk w.env.interfaces v.interfaces.dotted in
    let bytes = told_size-bytes_of (addresses_of w) whole in omega arith

pub running-IsNew :
    (w : World)
    → IsHost w
    → w.tx_factory.buffer ≡ []
    → w.rx_factory.buffer ≡ []
    → w.tx_factory.chunk_size ≡ alloc_chunk
    → IsNew (running w)
unfolding new_session
running-IsNew w v idle empty size =
    let l = length-map w.env.junk w.env.interfaces in
    let fit = v.fit in
    record {
      at_open = refl;
      unfinished = refl;
      idle = refl;
      empty = empty;
      idle_tx = idle;
      telling = record {
        whole = entries-AllWhole w.env.junk w.env.interfaces v.interfaces.dotted;
        counted = l;
        succeeds = v.interfaces.listing.succeeds;
        fits = omega arith;
        small = omega arith;
      };
      untold = refl;
      sent = v.sent;
      conns = λ k. record { id_lt = omega arith; src_lt = omega arith; dst_lt = omega arith };
    }
