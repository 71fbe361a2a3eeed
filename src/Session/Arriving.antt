-- ===== src/Session/Arriving.antt =====
-- The datagrams of a sender as they come in at the other end.
use udm.Base.{
  ℕ, zero, suc, ◌+◌, ◌*◌, ◌≤◌, ◌^◌, ◌≡◌, refl, ap, sym, ◌∙◌, List, [], ◌∷◌, arith, length,
}
use udm.Wire.{payld}
use udm.World.{World, DataSource, Address, Arrival, SockAddr}
use udm.Factory.Load.{after_chunk}
use udm.Session.Processor.{Params, win_siz}
use udm.Session.States.{params_for}
use udm.Session.Sender.{chunk_packet}
use udm.Session.Rounds.{round_done}
use udm.Session.Windows.{after_chunks, rounds_done, window_packets}
use udm.Session.Closed.{last_packets}
use udm.Session.Received.{Sent, arrivals_of}
use udm.Session.SentFile.{window_acked}
use udm.Session.WholeFile.{file_packets}
use udm.Session.Capsules.{delivered, delivered-append, delivered-window, capsule, capsules}
use udm.Session.Series.{all_arrivals, file_capsules}

-- What rounds of the sender touch in the session.
rounds_done-session :
    (k : ℕ) (w : World) (s : DataSource) (n : ℕ) (addresses : List Address)
    → let e = (rounds_done k w s n addresses).session in
      e ≡ record w.session { capsule_id = e.capsule_id; win_size = e.win_size }
rounds_done-session zero w s n addresses = refl
rounds_done-session (suc k) w s n addresses = rounds_done-session k _ _ n addresses

pub rounds_done-params :
    (k : ℕ) (w : World) (s : DataSource) (n : ℕ) (addresses : List Address)
    → params_for payld (rounds_done k w s n addresses) ≡ params_for payld w
rounds_done-params k w s n addresses =
    ap (λ e. params_for payld (record w { session = e })) (rounds_done-session k w s n addresses)

pub rounds_done-capsule_id :
    (k : ℕ) (w : World) (s : DataSource) (n : ℕ) (addresses : List Address)
    → w.session.capsule_id + k ≤ 2 ^ 16
    → (rounds_done k w s n addresses).session.capsule_id ≡ w.session.capsule_id + k
rounds_done-capsule_id zero w s n addresses small = omega arith
rounds_done-capsule_id (suc k) w s n addresses small =
    rounds_done-capsule_id k (round_done w s n addresses) _ n addresses (omega arith) ∙ omega arith

-- One capsule more.
arrivals_of-capsules :
    (k : ℕ) (p : Params) (i : ℕ) (s : DataSource) (n : ℕ) (from : SockAddr) (rest : List Arrival)
    → arrivals_of (capsules (suc k) p i s n from) rest
      ≡ arrivals_of
          (capsules k p i s n from)
          (arrivals_of (capsule p (i + k) (after_chunks k s n) n from ∷ []) rest)
arrivals_of-capsules zero p i s n from rest =
    ap (λ j. arrivals_of (capsule p j s n from ∷ []) rest) (omega arith)
arrivals_of-capsules (suc k) p i s n from rest =
    let s' = after_chunk s n in
    let same : suc i + k ≡ i + suc k = omega arith in
    ap (λ xs. arrivals_of (capsule p i s n from ∷ []) xs)
      (arrivals_of-capsules k p (suc i) s' n from rest
        ∙ ap
            (λ j.
              arrivals_of (capsules k p (suc i) s' n from)
                (arrivals_of (capsule p j (after_chunks k s' n) n from ∷ []) rest))
            same)

-- The datagrams of the last window arrive as the capsules of its chunks.
pub delivered-last :
    (k : ℕ) (w : World) (s : DataSource) (n : ℕ) (addresses : List Address) (from : SockAddr)
    (rest : List Arrival)
    → w.session.capsule_id + suc k ≤ 2 ^ 16
    → delivered from (last_packets k w s n addresses) rest
      ≡ arrivals_of (capsules (suc k) (params_for payld w) w.session.capsule_id s n from) rest
delivered-last k w s n addresses from rest small =
    let i = w.session.capsule_id in
    let s' = after_chunks k s n in
    let w' = rounds_done k w s n addresses in
    delivered-append from (window_packets k w s n addresses) (chunk_packet w' s' n addresses ∷ [])
      rest
    ∙ delivered-window k w s n addresses from _ (omega arith)
    ∙ ap (arrivals_of (capsules k (params_for payld w) i s n from)) (
        ap (λ p. arrivals_of (capsule p w'.session.capsule_id s' n from ∷ []) rest)
          (rounds_done-params k w s n addresses)
        ∙ ap (λ j. arrivals_of (capsule (params_for payld w) j s' n from ∷ []) rest)
            (rounds_done-capsule_id k w s n addresses (omega arith)))
    ∙ sym (arrivals_of-capsules k (params_for payld w) i s n from rest)

-- The datagrams of a file arrive as the capsules of its chunks, if the identifiers do not wrap.
pub delivered-file :
    (c : Sent) (cs : List Sent) (k : ℕ) (w : World) (s : DataSource) (n : ℕ)
    (addresses : List Address) (acks : List Arrival) (from : SockAddr) (rest : List Arrival)
    → w.session.capsule_id + (length cs * win_siz + suc k) ≤ 2 ^ 16
    → delivered from (file_packets c cs k w s n addresses acks) rest
      ≡ all_arrivals
          (file_capsules (length cs) k (params_for payld w) w.session.capsule_id s n from)
          rest
delivered-file c [] k w s n addresses acks from rest small =
    delivered-last k w s n addresses from rest (omega arith)
delivered-file c (d ∷ ds) k w s n addresses acks from rest small =
    let i = w.session.capsule_id in
    let p = params_for payld w in
    let s' = after_chunks win_siz s n in
    let w' = window_acked w s n addresses c (arrivals_of (d ∷ ds) acks) in
    let id = rounds_done-capsule_id win_siz w s n addresses (omega arith) in
    delivered-append from (window_packets win_siz w s n addresses) _ rest
    ∙ delivered-window win_siz w s n addresses from _ (omega arith)
    ∙ ap (arrivals_of (capsules win_siz p i s n from)) (
        delivered-file d ds k w' s' n addresses acks from rest (omega arith)
        ∙ ap
            (λ q. all_arrivals (file_capsules (length ds) k q w'.session.capsule_id s' n from) rest)
            (rounds_done-params win_siz w s n addresses)
        ∙ ap (λ j. all_arrivals (file_capsules (length ds) k p j s' n from) rest) id)
