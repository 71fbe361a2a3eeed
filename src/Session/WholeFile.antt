-- ===== src/Session/WholeFile.antt =====
-- A sender from the start of a window to the end of its file.
use udm.Base.{
  ℕ, zero, suc, ◌+◌, ◌-◌, ◌*◌, ◌≤◌, ◌<◌, ◌≡◌, refl, ap, sym, ◌∙◌, true, List, [], ◌∷◌, ◌++◌, arith,
  length, drop, append_assoc, subst,
}
use udm.Wire.{header_space, tx}
use udm.World.{World, Run, ok, DataSource, Address, Packet, Ref, Arrival}
use udm.Factory.Load.{at_chunk, IsReading}
use udm.Session.Processor.{win_siz}
use udm.Session.States.{state_loop, is_over}
use udm.Session.Rounds.{payloads, IsOpen, IsOpen-le}
use udm.Session.Windows.{
  after_chunks, window_packets, after_chunks-IsReading, rounds_done-outgoing, rounds_done-IsOpen,
  after_chunks-pos, after_chunks-content, after_chunks-file_size, payloads-rest,
}
use udm.Session.Closed.{
  last_packets, last_done, last_done-outgoing, payloads-last_packets, payloads-append,
  rounds_done-tasks,
}
use udm.Session.Received.{Sent, arrivals_of}
use udm.Session.Ack.{acked}
use udm.Session.SentFile.{
  AllAcks, IsSending, rounds_done-rest, window_acked, state_loop-window, state_loop-last,
}

-- A run that ends the loop of `start`, has sent `bytes` behind the headers of its datagrams, and leaves
-- `rest` to come.
pub record IsFileSent (w : World) (result : Run (Unit {0})) (bytes : List ℕ) (rest : List Arrival)
    : Type 0 where
  pub end : World
  pub packets : List Packet
  pub returns : result ≡ ok tt end
  pub out : end.outgoing ≡ w.outgoing ++ packets
  pub carries : payloads packets ≡ bytes
  pub left : end.incoming ≡ rest
  pub over : is_over end ≡ true

-- The next turn starts where the last one ended.
pub window_acked-IsOpen :
    (w : World) (s : DataSource) (n : ℕ) (addresses : List Address) (c : Sent) (rest : List Arrival)
    (j : ℕ)
    → IsOpen w addresses (win_siz + j)
    → IsOpen (window_acked w s n addresses c rest) addresses j
window_acked-IsOpen w s n addresses c rest j v =
    let v' = rounds_done-IsOpen win_siz j w s n addresses v in
    record {
      told = v'.told;
      some_left = v'.some_left;
      within = v'.within;
      no_wrap = v'.no_wrap;
      sent = v'.sent;
    }

pub window_acked-IsSending :
    (w : World) (s : DataSource) (n : ℕ) (addresses : List Address) (c : Sent) (rest : List Arrival)
    → IsSending w
    → IsSending (window_acked w s n addresses c rest)
window_acked-IsSending w s n addresses c rest g = record {
  at_closed = refl;
  window = refl;
  idle = ap (λ x. x) (rounds_done-tasks win_siz w s n addresses) ∙ g.idle;
  read = refl;
}

window_acked-AllAcks :
    (w : World) (s : DataSource) (n : ℕ) (addresses : List Address) (c : Sent) (rest : List Arrival)
    (cs : List Sent)
    → AllAcks w.rx_factory.chunk_size cs
    → AllAcks (window_acked w s n addresses c rest).rx_factory.chunk_size cs
window_acked-AllAcks w s n addresses c rest cs a =
    subst (λ x. AllAcks x cs)
      (sym (ap (λ x. x.rx_factory.chunk_size) (rounds_done-rest win_siz w s n addresses))) a

-- The datagrams of the whole file.
abbrev pub file_packets :
    Sent → List Sent → ℕ → World → DataSource → ℕ → List Address → List Arrival → List Packet
file_packets c [] k w s n addresses rest = last_packets k w s n addresses
file_packets c (d ∷ ds) k w s n addresses rest =
    window_packets win_siz w s n addresses
    ++ file_packets d ds k (window_acked w s n addresses c (arrivals_of (d ∷ ds) rest))
        (after_chunks win_siz s n) n addresses rest

-- The proof of `state_loop-file`, and which datagrams they are.
pub state_loop-packets :
    (c : Sent) (cs : List Sent) (fuel : ℕ) (r : Ref) (w : World) (s : DataSource) (n : ℕ)
    (addresses : List Address) (k e : ℕ) (rest : List Arrival)
    → IsReading s n
    → s.file_size
      ≡ s.pos + (length cs * (win_siz * (n - header_space)) + (k * (n - header_space) + e))
    → 0 < e
    → e < n - header_space
    → k < win_siz
    → IsOpen w addresses (length cs * win_siz + suc k)
    → IsSending w
    → w.incoming ≡ arrivals_of (c ∷ cs) rest
    → AllAcks w.rx_factory.chunk_size (c ∷ cs)
    → 2 * length (c ∷ cs) ≤ fuel
    → (v : IsFileSent w (state_loop fuel tx r (at_chunk w s n)) (drop s.pos s.content) rest)
      × (v.packets ≡ file_packets c cs k w s n addresses rest)
state_loop-packets c cs zero r w s n addresses k e rest v size some_left less narrow o g came acks
      enough =
    absurd (omega arith)
state_loop-packets c cs (suc zero) r w s n addresses k e rest v size some_left less narrow o g came
      acks enough =
    absurd (omega arith)
state_loop-packets c [] (suc (suc fuel)) r w s n addresses k e rest v size some_left less narrow o g
      came acks enough =
    (
      record {
        end = acked (last_done k w s n addresses) true c.from rest;
        packets = last_packets k w s n addresses;
        returns =
            state_loop-last fuel r w s n addresses k e c rest v (omega arith) some_left less narrow
              (IsOpen-le w addresses _ _ (omega arith) o) g came acks.0;
        out = last_done-outgoing k w s n addresses;
        carries = payloads-last_packets k e w s n addresses v (omega arith) less;
        left = refl;
        over = refl;
      },
      refl,
    )
state_loop-packets c (d ∷ ds) (suc (suc fuel)) r w s n addresses k e rest v size some_left less
      narrow o g came acks enough =
    let s' = after_chunks win_siz s n in
    let left = arrivals_of (d ∷ ds) rest in
    let w' = window_acked w s n addresses c left in
    let whole : s.pos + win_siz * (n - header_space) ≤ s.file_size = omega arith in
    let a = after_chunks-pos win_siz s n v whole in
    let b = after_chunks-file_size win_siz s n in
    let (ih, same) =
      state_loop-packets d ds fuel r w' s' n addresses k e rest
        (after_chunks-IsReading win_siz s n v) (omega arith) some_left less narrow
        (window_acked-IsOpen w s n addresses c left _ (IsOpen-le w addresses _ _ (omega arith) o))
        (window_acked-IsSending w s n addresses c left g) refl
        (window_acked-AllAcks w s n addresses c left (d ∷ ds) acks.1) (omega arith) in
    (
      record {
        end = ih.end;
        packets = window_packets win_siz w s n addresses ++ ih.packets;
        returns =
            state_loop-window fuel r w s n addresses c left v whole
              (IsOpen-le w addresses _ _ (omega arith) o) g came acks.0
            ∙ ih.returns;
        out =
            ih.out
            ∙ ap (λ ps. ps ++ ih.packets) (rounds_done-outgoing win_siz w s n addresses)
            ∙ append_assoc w.outgoing _ _;
        carries =
            payloads-append (window_packets win_siz w s n addresses) ih.packets
            ∙ ap (◌++◌ (payloads (window_packets win_siz w s n addresses)))
                (ih.carries ∙ ap (drop s'.pos) (after_chunks-content win_siz s n))
            ∙ payloads-rest win_siz w s n addresses;
        left = ih.left;
        over = ih.over;
      },
      ap (◌++◌ (window_packets win_siz w s n addresses)) same,
    )

-- Let a sender be at the start of a window, and let its file hold `length cs` windows of full chunks,
-- `k` full chunks more, fewer than a window, and `e` bytes more, fewer than a chunk takes but not none.
-- If the network takes all the capsules, and for each window a control capsule comes in that fits, then
-- with fuel for two states a window the loop of `start` returns by its own test, has sent datagrams
-- whose payloads are all that was left of the file, in order, and leaves what comes later to come.
pub state_loop-file :
    (c : Sent) (cs : List Sent) (fuel : ℕ) (r : Ref) (w : World) (s : DataSource) (n : ℕ)
    (addresses : List Address) (k e : ℕ) (rest : List Arrival)
    → IsReading s n
    → s.file_size
      ≡ s.pos + (length cs * (win_siz * (n - header_space)) + (k * (n - header_space) + e))
    → 0 < e
    → e < n - header_space
    → k < win_siz
    → IsOpen w addresses (length cs * win_siz + suc k)
    → IsSending w
    → w.incoming ≡ arrivals_of (c ∷ cs) rest
    → AllAcks w.rx_factory.chunk_size (c ∷ cs)
    → 2 * length (c ∷ cs) ≤ fuel
    → IsFileSent w (state_loop fuel tx r (at_chunk w s n)) (drop s.pos s.content) rest
state_loop-file c cs fuel r w s n addresses k e rest v size some_left less narrow o g came acks
      enough =
    (state_loop-packets c cs fuel r w s n addresses k e rest v size some_left less narrow o g came
      acks enough).0
