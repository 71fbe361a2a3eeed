-- ===== src/Pool/Drained.antt =====
-- The destructor of the pool ends, and what a worker would run.
use udm.Base.{ℕ, suc, ◌≡◌, refl, some, true, false, List, [], ◌∷◌, length}
use udm.Queue.{Queue, peek, try_pop_into}
use udm.Queue.Seg.{Holds}
use udm.Queue.Refine.{pop_head-nil, pop_head-cons, popped}
use udm.Pool.{ThreadPool, drain, destroy, worker_round, worker_thread}

module _ {ℓ} {A : Type ℓ} where
  drain_lem :
      (q : Queue A) (xs : List A)
      → Holds q xs
      → (q' : Queue A) × (drain (suc (length xs)) q ≡ some q') × Holds q' []
  unfolding drain peek
  drain_lem q [] v = (q, rw (pop_head-nil q v, drain) refl, v)
  drain_lem q (x ∷ xs) v =
      let (n, e, w) = pop_head-cons q x xs v in
      let (q', d, empty) = drain_lem (popped q n) xs w in (q', rw (e, drain) d, empty)

  -- The destructor of a pool whose queue holds `xs` ends after one `peek` more than there are tasks,
  -- which leave the queue without being run.
  pub destroy_lem :
      (pool : ThreadPool A) (xs : List A)
      → Holds pool.work_queue xs
      → (q : Queue A) × (destroy (suc (length xs)) pool
          ≡ some (record pool { work_queue = q; done = true }))
        × Holds q []
  unfolding destroy
  destroy_lem pool xs v =
      let (q, d, empty) = drain_lem pool.work_queue xs v in (q, rw (d, destroy) refl, empty)

  -- A pool that is not told to end.
  abbrev pub running : Queue A → ℕ → ThreadPool A
  running q threads = record { done = false; work_queue = q; threads = threads }

  -- Unless `done` is set, a worker that runs as many rounds as there are tasks runs each of them, in
  -- the order in which they were submitted.
  pub worker_thread_lem :
      (task : A) (xs : List A) (q : Queue A) (threads : ℕ)
      → Holds q xs
      → (q' : Queue A) × (worker_thread (length xs) task (running q threads)
          ≡ some (xs, running q' threads))
        × Holds q' []
  unfolding worker_thread worker_round try_pop_into
  worker_thread_lem task [] q threads v = (q, refl, v)
  worker_thread_lem task (x ∷ xs) q threads v =
      let (n, e, w) = pop_head-cons q x xs v in
      let (q', d, empty) = worker_thread_lem task xs (popped q n) threads w in
      (q', rw (e, worker_thread) (rw (d, worker_thread) refl), empty)
