-- ===== src/Session/Acks.antt =====
-- The acknowledgements of a receiver, as they go out and as they come in at the sender.
use udm.Base.{
  ℕ, zero, suc, ◌^◌, ◌<◌, ◌≤◌, ◌≡◌, refl, ap, sym, ◌∙◌, true, List, [], ◌∷◌, ◌++◌, arith, length,
  append-nil, has_bits,
}
use udm.Wire.{CapsuleHdr, zero_hdr, encode, header_space, ctrl}
use udm.World.{Packet, Arrival, SockAddr, datagram}
use udm.Factory.{add32}
use udm.Session.Processor.{Params, with_params, win_siz}
use udm.Session.Received.{Sent, arrivals_of}
use udm.Session.SentFile.{AllAcks}
use udm.Session.Capsules.{texts, arriving, delivered}

-- The header of an acknowledgement under the parameters `p` and the identifier `i`.
abbrev pub ack_of : Params → ℕ → CapsuleHdr
ack_of p i = with_params (record zero_hdr { cap_win_siz = win_siz }) p i

-- What `k` acknowledgements say: the identifiers count on.
abbrev pub ack_texts : ℕ → Params → ℕ → List (List ℕ)
ack_texts zero p i = []
ack_texts (suc k) p i = encode (ack_of p i) ∷ ack_texts k p (add32 i 1)

abbrev pub ack_capsules : ℕ → Params → ℕ → SockAddr → List Sent
ack_capsules zero p i from = []
ack_capsules (suc k) p i from =
    record { header = ack_of p i; payload = []; from = from; named = true }
    ∷ ack_capsules k p (add32 i 1) from

pub length-ack_capsules :
    (k : ℕ) (p : Params) (i : ℕ) (from : SockAddr) → length (ack_capsules k p i from) ≡ k
length-ack_capsules zero p i from = refl
length-ack_capsules (suc k) p i from = ap suc (length-ack_capsules k p _ from)

arriving-acks :
    (k : ℕ) (p : Params) (i : ℕ) (from : SockAddr) (rest : List Arrival)
    → arriving from (ack_texts k p i) rest ≡ arrivals_of (ack_capsules k p i from) rest
arriving-acks zero p i from rest = refl
arriving-acks (suc k) p i from rest =
    ap (λ bs. datagram bs from true ∷ arriving from (ack_texts k p (add32 i 1)) rest)
      (sym (append-nil (encode (ack_of p i))))
    ∙ ap (◌∷◌ (datagram (encode (ack_of p i) ++ []) from true))
        (arriving-acks k p (add32 i 1) from rest)

-- Datagrams that say so arrive as the capsules.
pub delivered-acks :
    (k : ℕ) (p : Params) (i : ℕ) (from : SockAddr) (acks : List Packet) (rest : List Arrival)
    → texts acks ≡ ack_texts k p i
    → delivered from acks rest ≡ arrivals_of (ack_capsules k p i from) rest
delivered-acks k p i from acks rest said =
    ap (λ bs. arriving from bs rest) said ∙ arriving-acks k p i from rest

-- Parameters that fit their fields and are those of a control capsule.
pub record IsControlParams (p : Params) : Type 0 where
  pub srcid_lt : p.srcid < 2 ^ 8
  pub destid_lt : p.destid < 2 ^ 8
  pub connid_lt : p.connid < 2 ^ 16
  pub kind : p.cap_type ≡ ctrl

-- A sender takes them as acknowledgements, if a header fits its chunks.
pub ack_capsules-AllAcks :
    (size k : ℕ) (p : Params) (i : ℕ) (from : SockAddr)
    → IsControlParams p
    → header_space ≤ size
    → AllAcks size (ack_capsules k p i from)
unfolding has_bits
ack_capsules-AllAcks size zero p i from v room = tt
ack_capsules-AllAcks size (suc k) p i from v room = (
  record {
    valid = record {
      srcid_lt = v.srcid_lt;
      destid_lt = v.destid_lt;
      connid_lt = v.connid_lt;
      capid_lt = omega arith;
      cap_size_lt = omega arith;
      cap_type_lt = omega (arith, v.kind);
      cap_priority_lt = omega arith;
      cap_win_siz_lt = omega arith;
      cap_flags_lt = omega arith;
      capopts_lt = omega arith;
    };
    fits = omega arith;
    kind = rw v.kind refl;
  },
  ack_capsules-AllAcks size k p _ from v room,
)
