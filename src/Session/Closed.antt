-- ===== src/Session/Closed.antt =====
-- What `closedState` does for a sender, in each of the ways in which a window can end.
use udm.Base.{
  ℕ, zero, suc, ◌+◌, ◌-◌, ◌*◌, ◌≤◌, ◌<◌, ◌≡◌, refl, ap, sym, ◌∙◌, Bool, true, List, [], ◌∷◌, ◌++◌,
  arith, length, length-append, drop, lt→ltb, append_assoc, append-nil, take-all, length-drop,
}
use udm.Wire.{header_space, StateCode, StateDirection, tx}
use udm.World.{World, Run, ok, DataSource, Address, Packet, Ref}
use udm.Factory.Load.{at_chunk, IsReading, next_bytes, is_short, length-next_bytes}
use udm.Session.States.{closed_state, window_loop}
use udm.Session.Sender.{chunk_packet, chunk_sent}
use udm.Session.Rounds.{payloads, payloads-packet, IsOpen, IsOpen-le, routed, window_loop-short}
use udm.Session.Windows.{
  after_chunks, rounds_done, window_packets, after_chunks-IsReading, window_loop-rounds,
  rounds_done-win_size, rounds_done-outgoing, rounds_done-IsOpen, after_chunks-pos,
  after_chunks-content, after_chunks-file_size, payloads-rest,
}

-- A run that returns and has sent `count` datagrams, with `bytes` behind their headers, whose session
-- goes to `done` and whose factory has `fin` as given.
pub record IsWindowSent (w : World) (result : Run (Unit {0})) (bytes : List ℕ) (count : ℕ)
    (fin : Bool) : Type 0 where
  pub end : World
  pub packets : List Packet
  pub returns : result ≡ ok tt end
  pub out : end.outgoing ≡ w.outgoing ++ packets
  pub carries : payloads packets ≡ bytes
  pub number : length packets ≡ count
  pub ends_file : end.tx_factory.fin ≡ fin
  pub next : end.session.next ≡ StateCode.done

pub length-window_packets :
    (k : ℕ) (w : World) (s : DataSource) (n : ℕ) (addresses : List Address)
    → length (window_packets k w s n addresses) ≡ k
length-window_packets zero w s n addresses = refl
length-window_packets (suc k) w s n addresses = ap suc (length-window_packets k _ _ n addresses)

pub payloads-append : (ps qs : List Packet) → payloads (ps ++ qs) ≡ payloads ps ++ payloads qs
payloads-append [] qs = refl
payloads-append (p ∷ ps) qs =
    ap (◌++◌ (drop header_space p.bytes)) (payloads-append ps qs)
    ∙ sym (append_assoc (drop header_space p.bytes) _ _)

abbrev pub to_done : World → World
to_done w = record w { session = record w.session { next = StateCode.done } }

-- The end of `closedState` when the loop came to an end.
pub closed_state-loop :
    (d : StateDirection) (r : Ref) (w end : World)
    → window_loop w.session.win_size StateCode.closed d r w ≡ ok tt end
    → end.session.tasks ≡ []
    → closed_state StateCode.closed d r w ≡ ok tt (to_done end)
unfolding closed_state
closed_state-loop d r w end e idle = rw (e, closed_state) (rw idle refl)

pub rounds_done-tasks :
    (k : ℕ) (w : World) (s : DataSource) (n : ℕ) (addresses : List Address)
    → (rounds_done k w s n addresses).session.tasks ≡ w.session.tasks
rounds_done-tasks zero w s n addresses = refl
rounds_done-tasks (suc k) w s n addresses = rounds_done-tasks k _ _ n addresses

-- What is left of the file is the next chunk.
next_bytes-last :
    (s : DataSource) (n : ℕ)
    → IsReading s n
    → s.file_size - s.pos ≤ n - header_space
    → next_bytes s n ≡ drop s.pos s.content
next_bytes-last s n v fits =
    take-all _ _ (let l = length-drop s.pos s.content in let a = v.whole in omega arith)

-- What full chunks leave of the file.
pub after_chunks-rest :
    (s : DataSource) (n k e : ℕ)
    → IsReading s n
    → s.file_size ≡ s.pos + (k * (n - header_space) + e)
    → (after_chunks k s n).file_size ≡ (after_chunks k s n).pos + e
after_chunks-rest s n k e v size =
    let a = after_chunks-pos k s n v (omega arith) in
    let b = after_chunks-file_size k s n in omega arith

-- A chunk with less in it than there is room for.
pub is_short-rest :
    (s : DataSource) (n e : ℕ)
    → IsReading s n
    → s.file_size ≡ s.pos + e
    → e < n - header_space
    → is_short s n ≡ true
is_short-rest s n e v size less =
    let l = length-next_bytes s n in let a = v.whole in lt→ltb _ _ (omega arith)

-- The loop sends the full chunks and the short one.
window_loop-last :
    (r : Ref) (w : World) (s : DataSource) (n : ℕ) (addresses : List Address) (k e more : ℕ)
    → IsReading s n
    → s.file_size ≡ s.pos + (k * (n - header_space) + e)
    → 0 < e
    → e < n - header_space
    → IsOpen w addresses (suc k)
    → w.session.win_size ≡ k + suc more
    → window_loop w.session.win_size StateCode.closed tx r (at_chunk w s n)
      ≡ ok tt (chunk_sent (rounds_done k w s n addresses) (after_chunks k s n) n addresses)
window_loop-last r w s n addresses k e more v size some_left less open_net wide =
    let w' = rounds_done k w s n addresses in
    let s' = after_chunks k s n in
    let v' = after_chunks-IsReading k s n v in
    let rest = after_chunks-rest s n k e v size in
    let open' : IsOpen w' addresses 1 =
      rounds_done-IsOpen k 1 w s n addresses (IsOpen-le w addresses _ _ (omega arith) open_net) in
    let win = rounds_done-win_size k w s n addresses in
    ap (λ f. window_loop f StateCode.closed tx r (at_chunk w s n)) wide
    ∙ window_loop-rounds k (suc more) r w s n addresses v (omega arith)
        (IsOpen-le w addresses k _ (omega arith) open_net) (omega arith)
    ∙ window_loop-short more r w' s' n addresses v' (omega arith)
        (is_short-rest s' n e v' rest less) (routed w' addresses 0 open') (open'.sent _)
        (omega arith)

-- The datagram of a last chunk carries the rest of the file.
payloads-last :
    (w : World) (s : DataSource) (n : ℕ) (addresses : List Address)
    → IsReading s n
    → s.file_size - s.pos ≤ n - header_space
    → payloads (chunk_packet w s n addresses ∷ []) ≡ drop s.pos s.content
payloads-last w s n addresses v fits =
    payloads-packet w s n addresses [] ∙ append-nil _ ∙ next_bytes-last s n v fits

-- The datagrams of the last window, and the world after it.
abbrev pub last_packets : ℕ → World → DataSource → ℕ → List Address → List Packet
last_packets k w s n addresses =
    window_packets k w s n addresses
    ++ chunk_packet (rounds_done k w s n addresses) (after_chunks k s n) n addresses ∷ []

abbrev pub last_done : ℕ → World → DataSource → ℕ → List Address → World
last_done k w s n addresses =
    to_done (chunk_sent (rounds_done k w s n addresses) (after_chunks k s n) n addresses)

pub last_done-outgoing :
    (k : ℕ) (w : World) (s : DataSource) (n : ℕ) (addresses : List Address)
    → (last_done k w s n addresses).outgoing ≡ w.outgoing ++ last_packets k w s n addresses
last_done-outgoing k w s n addresses =
    ap
      (λ ps.
        ps ++ chunk_packet (rounds_done k w s n addresses) (after_chunks k s n) n addresses ∷ [])
      (rounds_done-outgoing k w s n addresses)
    ∙ append_assoc w.outgoing _ _

pub payloads-last_packets :
    (k e : ℕ) (w : World) (s : DataSource) (n : ℕ) (addresses : List Address)
    → IsReading s n
    → s.file_size ≡ s.pos + (k * (n - header_space) + e)
    → e < n - header_space
    → payloads (last_packets k w s n addresses) ≡ drop s.pos s.content
payloads-last_packets k e w s n addresses v size less =
    let s' = after_chunks k s n in
    let rest = after_chunks-rest s n k e v size in
    payloads-append (window_packets k w s n addresses) _
    ∙ ap (◌++◌ (payloads (window_packets k w s n addresses))) (
        payloads-last (rounds_done k w s n addresses) s' n addresses
          (after_chunks-IsReading k s n v) (omega arith)
        ∙ ap (drop s'.pos) (after_chunks-content k s n))
    ∙ payloads-rest k w s n addresses

pub closed_state-short :
    (r : Ref) (w : World) (s : DataSource) (n : ℕ) (addresses : List Address) (k e more : ℕ)
    → IsReading s n
    → s.file_size ≡ s.pos + (k * (n - header_space) + e)
    → 0 < e
    → e < n - header_space
    → IsOpen w addresses (suc k)
    → w.session.win_size ≡ k + suc more
    → w.session.tasks ≡ []
    → closed_state StateCode.closed tx r (at_chunk w s n) ≡ ok tt (last_done k w s n addresses)
closed_state-short r w s n addresses k e more v size some_left less open_net wide idle =
    closed_state-loop tx r (at_chunk w s n)
      (chunk_sent (rounds_done k w s n addresses) (after_chunks k s n) n addresses)
      (window_loop-last r w s n addresses k e more v size some_left less open_net wide)
      (rounds_done-tasks k w s n addresses ∙ idle)

pub last_done-fin :
    (k e : ℕ) (w : World) (s : DataSource) (n : ℕ) (addresses : List Address)
    → IsReading s n
    → s.file_size ≡ s.pos + (k * (n - header_space) + e)
    → e < n - header_space
    → (last_done k w s n addresses).tx_factory.fin ≡ true
last_done-fin k e w s n addresses v size less =
    let short =
      is_short-rest (after_chunks k s n) n e (after_chunks-IsReading k s n v)
        (after_chunks-rest s n k e v size) less in
    rw short refl

-- When the file holds `k` full chunks and `e` more bytes, fewer than a chunk takes but not none, the
-- window has room for them and the network takes `suc k` capsules, `closedState` sends `suc k`
-- datagrams, whose payloads are all that was left of the file, in order, and goes to `done` with the
-- factory's `fin` set.
pub closed_state-last :
    (r : Ref) (w : World) (s : DataSource) (n : ℕ) (addresses : List Address) (k e more : ℕ)
    → IsReading s n
    → s.file_size ≡ s.pos + (k * (n - header_space) + e)
    → 0 < e
    → e < n - header_space
    → IsOpen w addresses (suc k)
    → w.session.win_size ≡ k + suc more
    → w.session.tasks ≡ []
    → IsWindowSent w
        (closed_state StateCode.closed tx r (at_chunk w s n))
        (drop s.pos s.content)
        (suc k)
        true
closed_state-last r w s n addresses k e more v size some_left less open_net wide idle = record {
  end = last_done k w s n addresses;
  packets = last_packets k w s n addresses;
  returns = closed_state-short r w s n addresses k e more v size some_left less open_net wide idle;
  out = last_done-outgoing k w s n addresses;
  carries = payloads-last_packets k e w s n addresses v size less;
  number =
      length-append _ _ ∙ ap (λ i. i + 1) (length-window_packets k w s n addresses) ∙ omega arith;
  ends_file = last_done-fin k e w s n addresses v size less;
  next = refl;
}
