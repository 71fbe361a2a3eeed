-- ===== src/Session/SentFile.antt =====
-- The sender from its first window to the end of its file: `closedState` and `doneState` in turn.
use udm.Base.{
  ℕ, zero, suc, ◌+◌, ◌-◌, ◌*◌, ◌≤◌, ◌<◌, ◌≡◌, refl, ap, sym, ◌∙◌, subst, true, false, List, [], ◌∷◌,
  ◌++◌, arith, length, has_bits,
}
use udm.Wire.{IsHdr, header_space, StateCode, tx, encode, payld}
use udm.World.{World, ok, DataSource, Address, Ref, Arrival, datagram}
use udm.Factory.Load.{at_chunk, IsReading}
use udm.Session.Processor.{win_siz}
use udm.Session.States.{done_state, step, state_loop}
use udm.Session.Rounds.{IsOpen}
use udm.Session.Windows.{rounds_done}
use udm.Session.Closed.{last_done, closed_state-short, last_done-fin}
use udm.Session.FullWindow.{window_done, closed_state-rounds}
use udm.Session.Received.{Sent}
use udm.Session.Ack.{acked, done_state-acked}
use udm.Session.Loop.{state_loop-step, state_loop-over}

-- A capsule that acknowledges a window, and fits a chunk of `size` bytes.
pub record IsAck (size : ℕ) (c : Sent) : Type 0 where
  pub valid : IsHdr c.header
  pub fits : header_space + length c.payload ≤ size
  pub kind : has_bits c.header.cap_type payld ≡ false

abbrev pub AllAcks : ℕ → List Sent → Type 0
AllAcks size [] = Unit
AllAcks size (c ∷ cs) = IsAck size c × AllAcks size cs

-- A sender at the start of a window, with nothing received that is not yet read.
pub record IsSending (w : World) : Type 0 where
  pub at_closed : w.session.next ≡ StateCode.closed
  pub window : w.session.win_size ≡ win_siz
  pub idle : w.session.tasks ≡ []
  pub read : w.rx_factory.buffer ≡ []

-- Rounds of the sender touch nothing but the store, the session, the network and the counters there.
pub rounds_done-rest :
    (k : ℕ) (w : World) (s : DataSource) (n : ℕ) (addresses : List Address)
    → let e = rounds_done k w s n addresses in
      e ≡ record w {
        mem = e.mem;
        fresh = e.fresh;
        session = e.session;
        addr_index = e.addr_index;
        sends = e.sends;
        outgoing = e.outgoing;
      }
rounds_done-rest zero w s n addresses = refl
rounds_done-rest (suc k) w s n addresses = rounds_done-rest k _ _ n addresses

-- The world after a full window and its acknowledgement.
abbrev pub window_acked : World → DataSource → ℕ → List Address → Sent → List Arrival → World
window_acked w s n addresses c rest = acked (window_done win_siz w s n addresses) false c.from rest

-- A full window goes out.
pub window_sent :
    (r : Ref) (w : World) (s : DataSource) (n : ℕ) (addresses : List Address)
    → IsReading s n
    → s.pos + win_siz * (n - header_space) ≤ s.file_size
    → IsOpen w addresses win_siz
    → IsSending w
    → step tx r StateCode.closed (at_chunk w s n) ≡ ok tt (window_done win_siz w s n addresses)
unfolding step
window_sent r w s n addresses v enough open_net g =
    closed_state-rounds r w s n addresses v
      (subst (λ k. s.pos + k * (n - header_space) ≤ s.file_size) (sym g.window) enough)
      (subst (IsOpen w addresses) (sym g.window) open_net) g.idle
    ∙ ap (λ k. ok tt (window_done k w s n addresses)) g.window

-- The rest of the file goes out.
pub rest_sent :
    (r : Ref) (w : World) (s : DataSource) (n : ℕ) (addresses : List Address) (k e : ℕ)
    → IsReading s n
    → s.file_size ≡ s.pos + (k * (n - header_space) + e)
    → 0 < e
    → e < n - header_space
    → k < win_siz
    → IsOpen w addresses (suc k)
    → IsSending w
    → step tx r StateCode.closed (at_chunk w s n) ≡ ok tt (last_done k w s n addresses)
unfolding step
rest_sent r w s n addresses k e v size some_left less narrow open_net g =
    closed_state-short r w s n addresses k e (win_siz - suc k) v size some_left less open_net
      (g.window ∙ omega arith) g.idle

-- One turn of the loop: a full window and its acknowledgement.
pub state_loop-window :
    (fuel : ℕ) (r : Ref) (w : World) (s : DataSource) (n : ℕ) (addresses : List Address) (c : Sent)
    (rest : List Arrival)
    → IsReading s n
    → s.pos + win_siz * (n - header_space) ≤ s.file_size
    → IsOpen w addresses win_siz
    → IsSending w
    → w.incoming ≡ datagram (encode c.header ++ c.payload) c.from c.named ∷ rest
    → IsAck w.rx_factory.chunk_size c
    → state_loop (suc (suc fuel)) tx r (at_chunk w s n)
      ≡ state_loop fuel tx r (window_acked w s n addresses c rest)
unfolding step
state_loop-window fuel r w s n addresses c rest v enough open_net g e a =
    let w' = window_done win_siz w s n addresses in
    let same = rounds_done-rest win_siz w s n addresses in
    let ack : done_state StateCode.done tx r w' ≡ ok tt (window_acked w s n addresses c rest) =
      done_state-acked r w' c.header c.payload c.from c.named rest (ap (λ x. x.incoming) same ∙ e)
        a.valid
        (subst (λ x. header_space + length c.payload ≤ x)
          (sym (ap (λ x. x.rx_factory.chunk_size) same)) a.fits)
        a.kind (ap (λ x. x.rx_factory.buffer) same ∙ g.read) in
    state_loop-step (suc fuel) tx r (at_chunk w s n) w' StateCode.closed g.at_closed refl
      (window_sent r w s n addresses v enough open_net g)
    ∙ state_loop-step fuel tx r w' _ StateCode.done refl refl ack

-- The last turn: the rest of the file, and its acknowledgement.
pub state_loop-last :
    (fuel : ℕ) (r : Ref) (w : World) (s : DataSource) (n : ℕ) (addresses : List Address) (k e : ℕ)
    (c : Sent) (rest : List Arrival)
    → IsReading s n
    → s.file_size ≡ s.pos + (k * (n - header_space) + e)
    → 0 < e
    → e < n - header_space
    → k < win_siz
    → IsOpen w addresses (suc k)
    → IsSending w
    → w.incoming ≡ datagram (encode c.header ++ c.payload) c.from c.named ∷ rest
    → IsAck w.rx_factory.chunk_size c
    → state_loop (suc (suc fuel)) tx r (at_chunk w s n)
      ≡ ok tt (acked (last_done k w s n addresses) true c.from rest)
unfolding step
state_loop-last fuel r w s n addresses k e c rest v size some_left less narrow open_net g came a =
    let w' = last_done k w s n addresses in
    let same = rounds_done-rest k w s n addresses in
    let ack : done_state StateCode.done tx r w' ≡ ok tt (acked w' true c.from rest) =
      done_state-acked r w' c.header c.payload c.from c.named rest
        (ap (λ x. x.incoming) same ∙ came) a.valid
        (subst (λ x. header_space + length c.payload ≤ x)
          (sym (ap (λ x. x.rx_factory.chunk_size) same)) a.fits)
        a.kind (ap (λ x. x.rx_factory.buffer) same ∙ g.read)
      ∙ ap (λ fin. ok tt (acked w' fin c.from rest))
          (last_done-fin k e w s n addresses v size less) in
    state_loop-step (suc fuel) tx r (at_chunk w s n) w' StateCode.closed g.at_closed refl
      (rest_sent r w s n addresses k e v size some_left less narrow open_net g)
    ∙ state_loop-step fuel tx r w' (acked w' true c.from rest) StateCode.done refl refl ack
    ∙ state_loop-over fuel tx r (acked w' true c.from rest) refl
