-- ===== src/Queue/ThreadsTests.antt =====
-- Two threads at one queue of numbers.
use udm.Base.{ℕ, ◌≡◌, refl, List, [], ◌∷◌, ◌++◌, arith}
use udm.Queue.{Ptr, write, init}
use udm.Queue.Seg.{Seg}
use udm.Queue.Threads.{
  Threads, Pusher, Popper, Step, Reach, start, later, push_link, push_load, push_store, push_tail,
  look, take, pop_load, pop_store, at, unlink,
}
use udm.Queue.Interleaved.{last_of, reached-in_order, reached-live}

record Ran : Type 0 where
  last : Threads ℕ
  reach : Reach 4 last

-- One push, and a thread that has read the tail behind it.
abbrev looked : Ran
unfolding init write
looked = record {
  last = _;
  reach =
      later (later (later (later (later start (push_link 7)) push_load) push_store) push_tail) look;
}

-- That thread takes the value and reads `count`, another one pushes, and the first one writes `count`.
abbrev raced : Ran
unfolding init write
raced = record {
  last = _;
  reach =
      later
        (later
          (later
            (later
              (later (later (later looked.reach (take _ (λ e. omega (arith, e)) refl)) pop_load)
                (push_link 8))
              push_load)
            push_store)
          push_tail)
        pop_store;
}

-- The queue holds a value, and its count is 0.
raced-count : raced.last.queue.count ≡ 0
unfolding init write
raced-count = refl

raced-held : (raced.last.pushed ≡ 7 ∷ 8 ∷ []) × (raced.last.popped ≡ 7 ∷ [])
unfolding init write
raced-held = (refl, refl)

reached-in_order_example :
    (held : List ℕ) × Seg raced.last.queue.nodes
      (last_of raced.last.pusher raced.last.queue.tail)
      raced.last.queue.head
      held
    × (raced.last.popped ++ held ≡ raced.last.pushed)
reached-in_order_example = reached-in_order 4 raced.last raced.reach

reached-live_example :
    (x : ℕ) × (n : Ptr) × Step
      (at looked.last.queue Pusher.free (Popper.looking 2) (7 ∷ []) [])
      (at (unlink looked.last.queue n) Pusher.free Popper.taken (7 ∷ []) ([] ++ x ∷ []))
unfolding init write
reached-live_example =
    reached-live 4 looked.last.queue Pusher.free 2 (7 ∷ []) [] looked.reach (λ e. omega (arith, e))
