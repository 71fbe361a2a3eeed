-- ===== src/Session/FullWindow.antt =====
-- What `closedState` does for a sender whose chunks are all full: the window is used up, or the file is.
use udm.Base.{
  ℕ, suc, ◌+◌, ◌-◌, ◌*◌, ◌≤◌, ◌<◌, ◌≡◌, refl, ap, sym, ◌∙◌, true, false, List, [], arith, length,
  length-append, take, drop, lt→ltb, length-drop, take-length-append,
}
use udm.Wire.{header_space, StateCode, tx}
use udm.World.{World, ok, halt, exited, DataSource, Address, Ref}
use udm.Factory.Load.{at_chunk, IsReading}
use udm.Session.States.{closed_state, window_loop, submit_task}
use udm.Session.Sender.{submit_chunk-end}
use udm.Session.Rounds.{payloads, IsOpen, window_loop-stop}
use udm.Session.Windows.{
  after_chunks, rounds_done, window_packets, after_chunks-IsReading, window_loop-rounds,
  rounds_done-win_size, rounds_done-outgoing, after_chunks-pos, after_chunks-file_size,
  payloads-rest,
}
use udm.Session.Closed.{
  IsWindowSent, to_done, closed_state-loop, length-window_packets, rounds_done-tasks,
}

-- The chunks of a full window are the bytes up to where the file was read.
pub payloads-full :
    (k : ℕ) (w : World) (s : DataSource) (n : ℕ) (addresses : List Address)
    → IsReading s n
    → s.pos + k * (n - header_space) ≤ s.file_size
    → payloads (window_packets k w s n addresses)
      ≡ take (k * (n - header_space)) (drop s.pos s.content)
payloads-full k w s n addresses v enough =
    let ps = payloads (window_packets k w s n addresses) in
    let rest = drop (after_chunks k s n).pos s.content in
    let whole = payloads-rest k w s n addresses in
    let a = after_chunks-pos k s n v enough in
    let b = v.whole in
    let total : length ps + length rest ≡ length (drop s.pos s.content) =
      sym (length-append ps rest) ∙ ap length whole in
    let c = length-drop s.pos s.content in
    let d = length-drop (after_chunks k s n).pos s.content in
    sym (take-length-append ps rest (k * (n - header_space)) (omega arith))
    ∙ ap (take (k * (n - header_space))) whole

-- The world after a window of full chunks, before `doneState`.
abbrev pub window_done : ℕ → World → DataSource → ℕ → List Address → World
window_done k w s n addresses =
    to_done (at_chunk (rounds_done k w s n addresses) (after_chunks k s n) n)

pub closed_state-rounds :
    (r : Ref) (w : World) (s : DataSource) (n : ℕ) (addresses : List Address)
    → IsReading s n
    → s.pos + w.session.win_size * (n - header_space) ≤ s.file_size
    → IsOpen w addresses w.session.win_size
    → w.session.tasks ≡ []
    → closed_state StateCode.closed tx r (at_chunk w s n)
      ≡ ok tt (window_done w.session.win_size w s n addresses)
closed_state-rounds r w s n addresses v enough open_net idle =
    let k = w.session.win_size in
    let w' = rounds_done k w s n addresses in
    let s' = after_chunks k s n in
    closed_state-loop tx r (at_chunk w s n) (at_chunk w' s' n)
      (ap (λ f. window_loop f StateCode.closed tx r (at_chunk w s n)) (omega arith)
        ∙ window_loop-rounds k 0 r w s n addresses v enough open_net (omega arith)
        ∙ window_loop-stop 0 tx r (at_chunk w' s' n)
            (rounds_done-win_size k w s n addresses ∙ omega arith))
      (rounds_done-tasks k w s n addresses ∙ idle)

-- When the file holds at least as many full chunks as the window has room for, and the network takes
-- them, `closedState` sends that many datagrams, whose payloads are the next bytes of the file, in
-- order, and goes to `done` with the factory's `fin` unset.
pub closed_state-full :
    (r : Ref) (w : World) (s : DataSource) (n : ℕ) (addresses : List Address)
    → IsReading s n
    → s.pos + w.session.win_size * (n - header_space) ≤ s.file_size
    → IsOpen w addresses w.session.win_size
    → w.session.tasks ≡ []
    → IsWindowSent w
        (closed_state StateCode.closed tx r (at_chunk w s n))
        (take (w.session.win_size * (n - header_space)) (drop s.pos s.content))
        w.session.win_size
        false
closed_state-full r w s n addresses v enough open_net idle =
    let k = w.session.win_size in
    record {
      end = window_done k w s n addresses;
      packets = window_packets k w s n addresses;
      returns = closed_state-rounds r w s n addresses v enough open_net idle;
      out = rounds_done-outgoing k w s n addresses;
      carries = payloads-full k w s n addresses v enough;
      number = length-window_packets k w s n addresses;
      ends_file = refl;
      next = refl;
    }

-- The loop meets the end of the file with the window still open.
window_loop-end :
    (fuel : ℕ) (r : Ref) (w : World) (s : DataSource) (n : ℕ)
    → IsReading s n
    → s.pos ≡ s.file_size
    → 0 < w.session.win_size
    → window_loop (suc fuel) StateCode.closed tx r (at_chunk w s n)
      ≡ halt (exited 1) (record (at_chunk w s n) {
        tx_factory = record (at_chunk w s n).tx_factory { fin = true };
      })
unfolding window_loop submit_task
window_loop-end fuel r w s n v over wide =
    rw (lt→ltb 0 w.session.win_size wide, submit_chunk-end w s n v over, window_loop) refl

-- When the file holds `k` full chunks and nothing more, and the window has room for more than `k`,
-- `closedState` sends the `k` chunks and then ends the program with an error.
pub closed_state-stops :
    (r : Ref) (w : World) (s : DataSource) (n : ℕ) (addresses : List Address) (k more : ℕ)
    → IsReading s n
    → s.file_size ≡ s.pos + k * (n - header_space)
    → IsOpen w addresses k
    → w.session.win_size ≡ k + suc more
    → closed_state StateCode.closed tx r (at_chunk w s n)
      ≡ halt (exited 1) (record (at_chunk (rounds_done k w s n addresses) (after_chunks k s n) n) {
        tx_factory =
            record (at_chunk (rounds_done k w s n addresses) (after_chunks k s n) n).tx_factory {
              fin = true;
            };
      })
unfolding closed_state
closed_state-stops r w s n addresses k more v size open_net wide =
    let w' = rounds_done k w s n addresses in
    let s' = after_chunks k s n in
    let a = after_chunks-pos k s n v (omega arith) in
    let b = after_chunks-file_size k s n in
    let win = rounds_done-win_size k w s n addresses in
    let loop : window_loop w.session.win_size StateCode.closed tx r (at_chunk w s n)
        ≡ halt (exited 1) (record (at_chunk w' s' n) {
          tx_factory = record (at_chunk w' s' n).tx_factory { fin = true };
        }) =
      ap (λ f. window_loop f StateCode.closed tx r (at_chunk w s n)) wide
      ∙ window_loop-rounds k (suc more) r w s n addresses v (omega arith) open_net (omega arith)
      ∙ window_loop-end more r w' s' n (after_chunks-IsReading k s n v) (omega arith)
          (omega arith) in
    rw (loop, closed_state) refl
