-- ===== src/Session/Windows.antt =====
-- Whole windows of the sender: `closedState` from its first chunk to its last.
use udm.Base.{
  ℕ, zero, suc, ◌+◌, ◌-◌, ◌*◌, ◌≤◌, ◌≡◌, refl, ap, sym, ◌∙◌, false, List, [], ◌∷◌, ◌++◌, arith,
  length, take, drop, le→ltb, append_assoc, append-nil, min, drop-drop,
}
use udm.Wire.{header_space, StateCode, tx}
use udm.World.{World, DataSource, Address, Packet, Ref}
use udm.Factory.Load.{at_chunk, IsReading, next_bytes, is_short, after_chunk, length-next_bytes}
use udm.Session.States.{window_loop}
use udm.Session.Sender.{chunk_packet}
use udm.Session.Rounds.{
  payloads, payloads-packet, IsOpen, IsOpen-le, routed, round_done, window_loop-full,
}

-- The file and the world after `k` full chunks, and what was sent by then.
abbrev pub after_chunks : ℕ → DataSource → ℕ → DataSource
after_chunks zero s n = s
after_chunks (suc k) s n = after_chunks k (after_chunk s n) n

abbrev pub rounds_done : ℕ → World → DataSource → ℕ → List Address → World
rounds_done zero w s n addresses = w
rounds_done (suc k) w s n addresses =
    rounds_done k (round_done w s n addresses) (after_chunk s n) n addresses

abbrev pub window_packets : ℕ → World → DataSource → ℕ → List Address → List Packet
window_packets zero w s n addresses = []
window_packets (suc k) w s n addresses =
    chunk_packet w s n addresses
    ∷ window_packets k (round_done w s n addresses) (after_chunk s n) n addresses

pub after_chunk-IsReading : (s : DataSource) (n : ℕ) → IsReading s n → IsReading (after_chunk s n) n
after_chunk-IsReading s n v =
    let l : length (next_bytes s n) ≡ min (n - header_space) (length s.content - s.pos) =
      length-next_bytes s n in
    let a = v.whole in
    let b = v.small in
    let c = v.read_part in
    record {
      for_input = v.for_input;
      good = v.good;
      whole = v.whole;
      small = v.small;
      read_part = omega arith;
      count_fits = omega arith;
      chunk_gt = v.chunk_gt;
      chunk_fits = v.chunk_fits;
    }

pub after_chunks-IsReading :
    (k : ℕ) (s : DataSource) (n : ℕ) → IsReading s n → IsReading (after_chunks k s n) n
after_chunks-IsReading zero s n v = v
after_chunks-IsReading (suc k) s n v = after_chunks-IsReading k _ n (after_chunk-IsReading s n v)

round_done-IsOpen :
    (w : World) (s : DataSource) (n : ℕ) (addresses : List Address) (k : ℕ)
    → IsOpen w addresses (suc k)
    → IsOpen (round_done w s n addresses) addresses k
round_done-IsOpen w s n addresses k v = record {
  told = v.told;
  some_left = v.some_left;
  within = v.within;
  no_wrap = (let b = v.no_wrap in omega arith);
  sent = v.sent;
}

-- A chunk for which the file holds enough is full.
pub length-next_bytes-full :
    (s : DataSource) (n : ℕ)
    → IsReading s n
    → s.pos + (n - header_space) ≤ s.file_size
    → length (next_bytes s n) ≡ n - header_space
length-next_bytes-full s n v enough =
    let a = v.whole in
    let l : length (next_bytes s n) ≡ min (n - header_space) (length s.content - s.pos) =
      length-next_bytes s n in
    omega arith

pub is_short-full :
    (s : DataSource) (n : ℕ)
    → IsReading s n
    → s.pos + (n - header_space) ≤ s.file_size
    → is_short s n ≡ false
is_short-full s n v enough = le→ltb _ _ (let l = length-next_bytes-full s n v enough in omega arith)

-- `k` rounds of the loop, all of them full.
pub window_loop-rounds :
    (k fuel : ℕ) (r : Ref) (w : World) (s : DataSource) (n : ℕ) (addresses : List Address)
    → IsReading s n
    → s.pos + k * (n - header_space) ≤ s.file_size
    → IsOpen w addresses k
    → k ≤ w.session.win_size
    → window_loop (k + fuel) StateCode.closed tx r (at_chunk w s n)
      ≡ window_loop fuel StateCode.closed tx r
          (at_chunk (rounds_done k w s n addresses) (after_chunks k s n) n)
window_loop-rounds zero fuel r w s n addresses v enough open_net wide =
    ap (λ f. window_loop f StateCode.closed tx r (at_chunk w s n)) (omega arith)
window_loop-rounds (suc k) fuel r w s n addresses v enough open_net wide =
    let one : s.pos + (n - header_space) ≤ s.file_size = omega arith in
    let l = length-next_bytes-full s n v one in
    let gt = v.chunk_gt in
    ap (λ f. window_loop f StateCode.closed tx r (at_chunk w s n)) (omega arith)
    ∙ window_loop-full (k + fuel) r w s n addresses v (omega arith) (is_short-full s n v one)
        (routed w addresses k open_net) (open_net.sent _) (omega arith)
    ∙ window_loop-rounds k fuel r (round_done w s n addresses) (after_chunk s n) n addresses
        (after_chunk-IsReading s n v) (omega arith) (round_done-IsOpen w s n addresses k open_net)
        (omega arith)

-- What `k` rounds leave of the world that later rounds look at.
pub rounds_done-win_size :
    (k : ℕ) (w : World) (s : DataSource) (n : ℕ) (addresses : List Address)
    → (rounds_done k w s n addresses).session.win_size ≡ w.session.win_size - k
rounds_done-win_size zero w s n addresses = omega arith
rounds_done-win_size (suc k) w s n addresses = rounds_done-win_size k _ _ n addresses ∙ omega arith

pub rounds_done-outgoing :
    (k : ℕ) (w : World) (s : DataSource) (n : ℕ) (addresses : List Address)
    → (rounds_done k w s n addresses).outgoing ≡ w.outgoing ++ window_packets k w s n addresses
rounds_done-outgoing zero w s n addresses = sym (append-nil w.outgoing)
rounds_done-outgoing (suc k) w s n addresses =
    rounds_done-outgoing k _ _ n addresses ∙ append_assoc w.outgoing _ _

pub rounds_done-IsOpen :
    (k j : ℕ) (w : World) (s : DataSource) (n : ℕ) (addresses : List Address)
    → IsOpen w addresses (k + j)
    → IsOpen (rounds_done k w s n addresses) addresses j
rounds_done-IsOpen zero j w s n addresses v = IsOpen-le w addresses j _ (omega arith) v
rounds_done-IsOpen (suc k) j w s n addresses v =
    rounds_done-IsOpen k j _ _ n addresses
      (round_done-IsOpen w s n addresses (k + j) (IsOpen-le w addresses _ _ (omega arith) v))

pub after_chunks-pos :
    (k : ℕ) (s : DataSource) (n : ℕ)
    → IsReading s n
    → s.pos + k * (n - header_space) ≤ s.file_size
    → (after_chunks k s n).pos ≡ s.pos + k * (n - header_space)
after_chunks-pos zero s n v enough = omega arith
after_chunks-pos (suc k) s n v enough =
    let l = length-next_bytes-full s n v (omega arith) in
    after_chunks-pos k _ n (after_chunk-IsReading s n v) (omega arith) ∙ omega arith

pub after_chunks-content :
    (k : ℕ) (s : DataSource) (n : ℕ) → (after_chunks k s n).content ≡ s.content
after_chunks-content zero s n = refl
after_chunks-content (suc k) s n = after_chunks-content k _ n

pub after_chunks-file_size :
    (k : ℕ) (s : DataSource) (n : ℕ) → (after_chunks k s n).file_size ≡ s.file_size
after_chunks-file_size zero s n = refl
after_chunks-file_size (suc k) s n = after_chunks-file_size k _ n

take-drop-length : (m : ℕ) (xs : List ℕ) → take m xs ++ drop (length (take m xs)) xs ≡ xs
take-drop-length zero xs = refl
take-drop-length (suc m) [] = refl
take-drop-length (suc m) (x ∷ xs) = ap (◌∷◌ x) (take-drop-length m xs)

pub next_bytes-rest :
    (s : DataSource) (n : ℕ)
    → next_bytes s n ++ drop (after_chunk s n).pos s.content ≡ drop s.pos s.content
next_bytes-rest s n =
    ap (◌++◌ (next_bytes s n)) (sym (drop-drop (length (next_bytes s n)) s.pos _ s.content refl))
    ∙ take-drop-length (n - header_space) (drop s.pos s.content)

-- `k` chunks and what is left of the file are the file from where it was read.
pub payloads-rest :
    (k : ℕ) (w : World) (s : DataSource) (n : ℕ) (addresses : List Address)
    → payloads (window_packets k w s n addresses) ++ drop (after_chunks k s n).pos s.content
      ≡ drop s.pos s.content
payloads-rest zero w s n addresses = refl
payloads-rest (suc k) w s n addresses =
    ap (λ bs. bs ++ drop (after_chunks (suc k) s n).pos s.content)
      (payloads-packet w s n addresses
        (window_packets k (round_done w s n addresses) (after_chunk s n) n addresses))
    ∙ append_assoc (next_bytes s n) _ _
    ∙ ap (◌++◌ (next_bytes s n))
        (payloads-rest k (round_done w s n addresses) (after_chunk s n) n addresses)
    ∙ next_bytes-rest s n
