-- ===== src/Session/Received.antt =====
-- A window of the receiver: the loop of `closedState` over the datagrams that come in.
use udm.Base.{
  ℕ, suc, ◌+◌, ◌-◌, ◌≤◌, ◌<◌, ◌≡◌, refl, ◌∙◌, some, Option, none, Bool, true, false, List, [], ◌∷◌,
  ◌++◌, arith, length, has_bits, lt→ltb,
}
use udm.Wire.{CapsuleHdr, IsHdr, StateCode, rx, encode, header_space, payld, fin_flag}
use udm.World.{World, Ref, Arrival, datagram, SockAddr, MemBuff}
use udm.World.Laws.{put_self, put_ne}
use udm.Presentation.Written.{IsPayload, AllPayload}
use udm.Session.States.{window_loop, submit_task}
use udm.Session.Receiver.{IsBelow, arrived, with_buffer, await_payload_lem}

-- A capsule on its way, with what the receiver learns of its sender.
pub record Sent : Type 0 where
  pub header : CapsuleHdr
  pub payload : List ℕ
  pub from : SockAddr
  pub named : Bool

abbrev pub arrivals_of : List Sent → List Arrival → List Arrival
arrivals_of [] rest = rest
arrivals_of (c ∷ cs) rest =
    datagram (encode c.header ++ c.payload) c.from c.named ∷ arrivals_of cs rest

abbrev pub payloads_of : List Sent → List (List ℕ)
payloads_of [] = []
payloads_of (c ∷ cs) = c.payload ∷ payloads_of cs

-- A capsule of payload that fits a chunk of `n` bytes.
pub record IsSent (n : ℕ) (c : Sent) : Type 0 where
  pub valid : IsHdr c.header
  pub fits : header_space + length c.payload ≤ n
  pub typed : has_bits c.header.cap_type payld ≡ true

-- Capsules of payload that fit, whose identifiers rise from `k` on, and of which the last has the flag
-- FIN if `last` says so, and no other.
abbrev pub IsSeries : ℕ → Bool → ℕ → List Sent → Type 0
IsSeries n last k [] = last ≡ false
IsSeries n last k (c ∷ []) =
    IsSent n c × ((k ≤ c.header.capid) × (has_bits c.header.cap_flags fin_flag ≡ last))
IsSeries n last k (c ∷ d ∷ cs) =
    IsSent n c
    × ((k ≤ c.header.capid)
        × ((has_bits c.header.cap_flags fin_flag ≡ false)
            × IsSeries n last (suc c.header.capid) (d ∷ cs)))

-- The objects of the window are older than `n`.
abbrev pub IsOld : ℕ → List (ℕ × Ref) → Type 0
IsOld n [] = Unit
IsOld n ((k, r) ∷ rest) = (r < n) × IsOld n rest

-- A receiver in the middle of a window whose capsules hold the payloads `ps`, with identifiers below
-- `k`; the caller's buffer has no capsule.
pub record IsReceiving (w : World) (current_buffer k : ℕ) (ps : List (List ℕ)) : Type 0 where
  pub below : IsBelow k w.window
  pub older : IsOld w.fresh w.window
  pub held : AllPayload w.mem w.window ps
  pub more : w.rx_factory.fin ≡ false
  pub size : ℕ
  pub no_capsule : w.mem current_buffer ≡ some (record { size = size; cap = none })
  pub old : current_buffer < w.fresh

-- The end of a round.
abbrev pub round_received : World → Sent → List Arrival → World
round_received w c rest =
    let w' = arrived w c.header c.payload c.from rest in
    record w' { session = record w'.session { win_size = w'.session.win_size - 1 } }

IsBelow-le : (k j : ℕ) (m : List (ℕ × Ref)) → k ≤ j → IsBelow k m → IsBelow j m
IsBelow-le k j [] le v = tt
IsBelow-le k j ((i, r) ∷ rest) le v = (omega (arith, v.0), IsBelow-le k j rest le v.1)

IsBelow-append :
    (k j : ℕ) (r : Ref) (m : List (ℕ × Ref))
    → k ≤ j
    → IsBelow k m
    → IsBelow (suc j) (m ++ (j, r) ∷ [])
IsBelow-append k j r [] le v = (omega arith, tt)
IsBelow-append k j r ((i, s) ∷ rest) le v = (omega (arith, v.0), IsBelow-append k j r rest le v.1)

IsOld-append :
    (n j : ℕ) (m : List (ℕ × Ref)) → IsOld n m → IsOld (suc (suc n)) (m ++ (j, suc n) ∷ [])
IsOld-append n j [] v = (omega arith, tt)
IsOld-append n j ((i, s) ∷ rest) v = (omega (arith, v.0), IsOld-append n j rest v.1)

-- What comes in touches no older object.
pub arrived-old :
    (w : World) (c : Sent) (rest : List Arrival) (r : Ref)
    → r < w.fresh
    → (round_received w c rest).mem r ≡ w.mem r
arrived-old w c rest r h =
    put_ne _ w.fresh r none (λ q. omega (arith, q))
    ∙ put_ne _ (suc w.fresh) r _ (λ q. omega (arith, q))
    ∙ put_ne w.mem w.fresh r _ (λ q. omega (arith, q))

-- The new object holds the payload.
arrived-IsPayload :
    (w : World) (c : Sent) (rest : List Arrival)
    → IsSent w.rx_factory.chunk_size c
    → IsPayload (round_received w c rest).mem (suc w.fresh) c.payload
unfolding encode
arrived-IsPayload w c rest v = record {
  header = c.header;
  pre = encode c.header;
  post = _;
  holds =
      put_ne _ w.fresh (suc w.fresh) none (λ q. omega (arith, q))
      ∙ put_self (with_buffer w).mem (suc w.fresh) _;
  typed = v.typed;
}

-- Older objects are as they were.
held-older :
    (m m' : Ref → Option MemBuff) (n : ℕ) (entries : List (ℕ × Ref)) (ps : List (List ℕ))
    → ((r : Ref) → r < n → m' r ≡ m r)
    → IsOld n entries
    → AllPayload m entries ps
    → AllPayload m' entries ps
held-older m m' n [] [] same old v = tt
held-older m m' n [] (p ∷ ps) same old v = absurd v
held-older m m' n (e ∷ rest) [] same old v = absurd v
held-older m m' n ((k, r) ∷ rest) (p ∷ ps) same old v =
    let q = v.0 in
    (
      record {
        header = q.header;
        pre = q.pre;
        post = q.post;
        holds = same r old.0 ∙ q.holds;
        typed = q.typed;
      },
      held-older m m' n rest ps same old.1 v.1,
    )

held-append :
    (m : Ref → Option MemBuff) (entries : List (ℕ × Ref)) (ps : List (List ℕ)) (k : ℕ) (r : Ref)
    (p : List ℕ)
    → AllPayload m entries ps
    → IsPayload m r p
    → AllPayload m (entries ++ (k, r) ∷ []) (ps ++ p ∷ [])
held-append m [] [] k r p v q = (q, tt)
held-append m [] (p' ∷ ps) k r p v q = absurd v
held-append m (e ∷ rest) [] k r p v q = absurd v
held-append m (e ∷ rest) (p' ∷ ps) k r p v q = (v.0, held-append m rest ps k r p v.1 q)

pub arrived-held :
    (w : World) (c : Sent) (rest : List Arrival) (ps : List (List ℕ))
    → IsSent w.rx_factory.chunk_size c
    → IsOld w.fresh w.window
    → AllPayload w.mem w.window ps
    → AllPayload
        (round_received w c rest).mem
        (round_received w c rest).window
        (ps ++ c.payload ∷ [])
arrived-held w c rest ps v old held =
    held-append _ w.window ps c.header.capid (suc w.fresh) c.payload
      (held-older w.mem _ w.fresh w.window ps (arrived-old w c rest) old held)
      (arrived-IsPayload w c rest v)

-- After a capsule without FIN the window goes on.
pub round_received-IsReceiving :
    (w : World) (current_buffer k : ℕ) (ps : List (List ℕ)) (c : Sent) (rest : List Arrival)
    → IsReceiving w current_buffer k ps
    → IsSent w.rx_factory.chunk_size c
    → k ≤ c.header.capid
    → has_bits c.header.cap_flags fin_flag ≡ false
    → IsReceiving
        (round_received w c rest)
        current_buffer
        (suc c.header.capid)
        (ps ++ c.payload ∷ [])
round_received-IsReceiving w current_buffer k ps c rest g v le no_fin = record {
  below = IsBelow-append k c.header.capid (suc w.fresh) w.window le g.below;
  older = IsOld-append w.fresh c.header.capid w.window g.older;
  held = arrived-held w c rest ps v g.older g.held;
  more = rw no_fin g.more;
  size = g.size;
  no_capsule = arrived-old w c rest current_buffer g.old ∙ g.no_capsule;
  old = (let o = g.old in omega arith);
}

-- A round of the loop.
pub window_loop-receives :
    (fuel : ℕ) (w : World) (current_buffer k : ℕ) (ps : List (List ℕ)) (c : Sent)
    (rest : List Arrival)
    → IsReceiving w current_buffer k ps
    → IsSent w.rx_factory.chunk_size c
    → k ≤ c.header.capid
    → w.incoming ≡ datagram (encode c.header ++ c.payload) c.from c.named ∷ rest
    → 0 < w.session.win_size
    → window_loop (suc fuel) StateCode.closed rx current_buffer w
      ≡ window_loop fuel StateCode.closed rx current_buffer (round_received w c rest)
unfolding window_loop submit_task
window_loop-receives fuel w current_buffer k ps c rest g v le e wide =
    let came =
      await_payload_lem w current_buffer g.size c.header c.payload c.from c.named rest e v.valid
        v.fits v.typed (IsBelow-le k c.header.capid w.window le g.below) g.more g.no_capsule
        g.old in
    rw (lt→ltb 0 w.session.win_size wide, came, window_loop) refl
