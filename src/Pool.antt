-- ===== src/Pool.antt =====
-- worker_pool.hpp: `thread_pool`, its queue of tasks and its destructor. A task is a value of any type. A
-- session has a pool, which it gives no task.
pub mod Drained
mod Tests
use udm.Base.{ℕ, zero, suc, Option, none, some, Bool, true, false, List, [], ◌∷◌, ◌++◌, not}
use udm.Queue.{Queue}
use udm.Queue

-- `threads` is the number of those that run.
pub record ThreadPool {ℓ} (A : Type ℓ) : Type ℓ where
  pub done : Bool
  pub work_queue : Queue A
  pub threads : ℕ

-- The loop that starts the threads: its first round leaves it.
unfoldable pub start_threads : ℕ → ℕ → ℕ
start_threads zero threads = threads
start_threads (suc n) threads = threads

module _ {ℓ} {A : Type ℓ} where
  -- `thread_pool()` on a machine with so many processors.
  unfoldable pub init : ℕ → ThreadPool A
  init hardware_concurrency = record {
    done = false;
    work_queue = Queue.init hardware_concurrency;
    threads = start_threads hardware_concurrency 0;
  }

  -- `submit`
  unfoldable pub submit : A → ThreadPool A → Option (ThreadPool A)
  submit task pool = elim (Queue.push pool.work_queue task) [
    | none ↦ none
    | some q ↦ some (record pool { work_queue = q })
  ]

  -- `workdone`
  unfoldable pub workdone : ThreadPool A → Bool
  workdone pool = Queue.is_empty pool.work_queue

  -- One round of `worker_thread`: the task that it runs, if it finds one. `task` is the variable, which
  -- holds an empty function before.
  unfoldable pub worker_round : A → ThreadPool A → Option (List A × ThreadPool A)
  worker_round task pool = elim (Queue.try_pop_into pool.work_queue task) [
    | none ↦ none
    | some (true, t, q) ↦ some (t ∷ [], record pool { work_queue = q })
    | some (false, t, q) ↦ some ([], record pool { work_queue = q })
  ]

  -- `worker_thread` for some rounds: the tasks that it runs. It ends when `done` is set.
  unfoldable pub worker_thread : ℕ → A → ThreadPool A → Option (List A × ThreadPool A)
  worker_thread zero task pool = some ([], pool)
  worker_thread (suc rounds) task pool = elim pool.done [
    | true ↦ some ([], pool)
    | false ↦ elim (worker_round task pool) [
      | none ↦ none
      | some (ran, pool') ↦ elim (worker_thread rounds task pool') [
        | none ↦ none
        | some (more, pool'') ↦ some (ran ++ more, pool'')
      ]
    ]
  ]

  -- `while (work_queue.peek()) …`
  unfoldable pub drain : ℕ → Queue A → Option (Queue A)
  drain zero q = none
  drain (suc fuel) q = elim (Queue.peek q) [
    | none ↦ none
    | some (true, q') ↦ drain fuel q'
    | some (false, q') ↦ some q'
  ]

  -- `~thread_pool()`
  unfoldable pub destroy : ℕ → ThreadPool A → Option (ThreadPool A)
  destroy fuel pool = elim (drain fuel pool.work_queue) [
    | none ↦ none
    | some q ↦ some (record pool { work_queue = q; done = true })
  ]
