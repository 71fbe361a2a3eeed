-- ===== src/Session/Capsules.antt =====
-- The chunks of a file as the capsules in which they reach the other end.
use udm.Base.{
  ℕ, zero, suc, ◌+◌, ◌-◌, ◌*◌, ◌%◌, ◌≤◌, ◌<◌, ◌^◌, ◌≡◌, refl, ap, ◌∙◌, Bool, true, List, [], ◌∷◌,
  ◌++◌, arith, length, drop, has_bits, append_assoc, inl, inr, Bool-cases,
}
use udm.Wire.{header_space, payld, fin_flag}
use udm.World.{World, DataSource, Address, Packet, Arrival, datagram, SockAddr}
use udm.Factory.{add32}
use udm.Factory.Load.{IsReading, next_bytes, is_short, after_chunk, length-next_bytes}
use udm.Presentation.Written.{window_bytes}
use udm.Session.Processor.{Params, with_params}
use udm.Session.States.{params_for}
use udm.Session.Sender.{chunk_header, chunk_packet}
use udm.Session.Rounds.{round_done}
use udm.Session.Windows.{
  after_chunks, window_packets, next_bytes-rest, is_short-full, after_chunk-IsReading,
  length-next_bytes-full,
}
use udm.Session.Received.{Sent, arrivals_of, payloads_of, IsSent, IsSeries}

-- What the other end gets of datagrams that arrive in order.
abbrev pub texts : List Packet → List (List ℕ)
texts [] = []
texts (p ∷ ps) = p.bytes ∷ texts ps

abbrev pub arriving : SockAddr → List (List ℕ) → List Arrival → List Arrival
arriving from [] rest = rest
arriving from (bs ∷ more) rest = datagram bs from true ∷ arriving from more rest

abbrev pub delivered : SockAddr → List Packet → List Arrival → List Arrival
delivered from ps rest = arriving from (texts ps) rest

pub delivered-append :
    (from : SockAddr) (ps qs : List Packet) (rest : List Arrival)
    → delivered from (ps ++ qs) rest ≡ delivered from ps (delivered from qs rest)
delivered-append from [] qs rest = refl
delivered-append from (p ∷ ps) qs rest =
    ap (◌∷◌ (datagram p.bytes from true)) (delivered-append from ps qs rest)

-- The next chunk of a file, under the parameters `p` and the identifier `i`.
abbrev pub capsule : Params → ℕ → DataSource → ℕ → SockAddr → Sent
capsule p i s n from = record {
  header = with_params (chunk_header s n) p i;
  payload = next_bytes s n;
  from = from;
  named = true;
}

-- The next `k` chunks.
abbrev pub capsules : ℕ → Params → ℕ → DataSource → ℕ → SockAddr → List Sent
capsules zero p i s n from = []
capsules (suc k) p i s n from = capsule p i s n from ∷ capsules k p (suc i) (after_chunk s n) n from

-- The datagrams of a window arrive as the capsules of its chunks.
pub delivered-window :
    (k : ℕ) (w : World) (s : DataSource) (n : ℕ) (addresses : List Address) (from : SockAddr)
    (rest : List Arrival)
    → w.session.capsule_id + k ≤ 2 ^ 16
    → delivered from (window_packets k w s n addresses) rest
      ≡ arrivals_of (capsules k (params_for payld w) w.session.capsule_id s n from) rest
delivered-window zero w s n addresses from rest small = refl
delivered-window (suc k) w s n addresses from rest small =
    let next : add32 w.session.capsule_id 1 ≡ suc w.session.capsule_id = omega arith in
    ap (◌∷◌ (datagram (chunk_packet w s n addresses).bytes from true)) (
      delivered-window k (round_done w s n addresses) (after_chunk s n) n addresses from rest
        (omega arith)
      ∙ ap (λ i. arrivals_of (capsules k (params_for payld w) i (after_chunk s n) n from) rest)
          next)

-- Parameters that fit their fields and are those of a payload.
pub record IsPayloadParams (p : Params) : Type 0 where
  pub srcid_lt : p.srcid < 2 ^ 8
  pub destid_lt : p.destid < 2 ^ 8
  pub connid_lt : p.connid < 2 ^ 16
  pub kind : p.cap_type ≡ payld

module _ (p : Params) (v : IsPayloadParams p) (n m : ℕ) (from : SockAddr) (wide : n ≤ m) where
  capsule-IsSent : (i : ℕ) (s : DataSource) → IsReading s n → IsSent m (capsule p i s n from)
  unfolding has_bits
  capsule-IsSent i s r =
      let l = length-next_bytes s n in
      let a = r.chunk_fits in
      let b = r.chunk_gt in
      record {
        valid = record {
          srcid_lt = v.srcid_lt;
          destid_lt = v.destid_lt;
          connid_lt = v.connid_lt;
          capid_lt = omega arith;
          cap_size_lt = omega arith;
          cap_type_lt = omega (arith, v.kind);
          cap_priority_lt = omega arith;
          cap_win_siz_lt = omega arith;
          cap_flags_lt = ground arith;
          capopts_lt = omega arith;
        };
        fits = omega arith;
        typed = rw v.kind refl;
      }

  capsule-fin :
      (i : ℕ) (s : DataSource)
      → has_bits (capsule p i s n from).header.cap_flags fin_flag ≡ is_short s n
  unfolding has_bits
  capsule-fin i s = elim (Bool-cases (is_short s n)) [
    | inl short ↦ rw short refl
    | inr full ↦ rw full refl
  ]

  -- `k` full chunks, and one that is short if `last` says so.
  pub capsules-IsSeries :
      (k lo i : ℕ) (s : DataSource) (last : Bool)
      → IsReading s n
      → s.pos + k * (n - header_space) ≤ s.file_size
      → is_short (after_chunks k s n) n ≡ last
      → lo ≤ i
      → i + k < 2 ^ 16
      → IsSeries m last lo (capsules (suc k) p i s n from)
  capsules-IsSeries zero lo i s last r enough ends le small =
      (capsule-IsSent i s r, (omega arith, capsule-fin i s ∙ ends))
  capsules-IsSeries (suc k) lo i s last r enough ends le small =
      let one : s.pos + (n - header_space) ≤ s.file_size = omega arith in
      let l = length-next_bytes-full s n r one in
      (
        capsule-IsSent i s r,
        (
          omega arith,
          (
            capsule-fin i s ∙ is_short-full s n r one,
            capsules-IsSeries k (suc (i % 2 ^ 16)) (suc i) (after_chunk s n) last
                (after_chunk-IsReading s n r) (omega arith) ends (omega arith) (omega arith),
          ),
        ),
      )

pub length-capsules :
    (k : ℕ) (p : Params) (i : ℕ) (s : DataSource) (n : ℕ) (from : SockAddr)
    → length (capsules k p i s n from) ≡ k
length-capsules zero p i s n from = refl
length-capsules (suc k) p i s n from = ap suc (length-capsules k p _ _ n from)

-- `k` chunks and what is left of the file are the file from where it was read.
pub capsules-rest :
    (k : ℕ) (p : Params) (i : ℕ) (s : DataSource) (n : ℕ) (from : SockAddr)
    → window_bytes (payloads_of (capsules k p i s n from))
        ++ drop (after_chunks k s n).pos s.content
      ≡ drop s.pos s.content
capsules-rest zero p i s n from = refl
capsules-rest (suc k) p i s n from =
    append_assoc (next_bytes s n) _ _
    ∙ ap (◌++◌ (next_bytes s n)) (capsules-rest k p (suc i) (after_chunk s n) n from)
    ∙ next_bytes-rest s n
