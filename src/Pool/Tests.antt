-- ===== src/Pool/Tests.antt =====
-- A pool of tasks that are numbers.
use udm.Base.{ℕ, ◌≡◌, refl, some, true, false, [], ◌∷◌}
use udm.Queue.{Queue}
use udm.Queue
use udm.Queue.Seg.{Holds}
use udm.Queue.Refine.{init-Holds, pushed, pushed-Holds}
use udm.Pool.{ThreadPool, destroy, init, start_threads, worker_thread}
use udm.Pool.Drained.{running, destroy_lem, worker_thread_lem}

abbrev two_tasks : ThreadPool ℕ
two_tasks = record { done = false; work_queue = pushed (pushed (Queue.init 4) 7) 8; threads = 0 }

two_tasks-Holds : Holds two_tasks.work_queue (7 ∷ 8 ∷ [])
two_tasks-Holds =
    pushed-Holds (pushed (Queue.init 4) 7) 8 (7 ∷ [])
      (pushed-Holds (Queue.init 4) 7 [] (init-Holds 4))

destroy_lem_example :
    (q : Queue ℕ) × (destroy 3 two_tasks ≡ some (record two_tasks { work_queue = q; done = true }))
    × Holds q []
destroy_lem_example = destroy_lem two_tasks (7 ∷ 8 ∷ []) two_tasks-Holds

worker_thread_lem_example :
    (q : Queue ℕ) × (worker_thread 2 0 two_tasks ≡ some (7 ∷ 8 ∷ [], running q 0)) × Holds q []
worker_thread_lem_example = worker_thread_lem 0 (7 ∷ 8 ∷ []) two_tasks.work_queue 0 two_tasks-Holds

-- The constructor starts no thread.
no_thread : (init {A = ℕ} 8).threads ≡ 0
unfolding init start_threads
no_thread = refl
