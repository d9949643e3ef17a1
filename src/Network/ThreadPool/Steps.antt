-- ===== src/Network/ThreadPool/Steps.antt =====
-- The steps of a pool of threads: calls from outside, and turns of the workers in any order.
use fion.Prelude.{ℕ, suc, List, [], ◌∷◌, ◌++◌, ◌≡◌, if◌then◌else◌}
use fion.Network.ThreadPool.{
  ThreadPool, new_thread_pool, returns, runs, enqueue, begin_stop, worker_turn,
}

-- The pool, how many workers wait, run a task and have returned, and the tasks that were accepted and
-- that were started, in order.
pub record Workers (Task : Type 0) : Type 0 where
  pub pool : ThreadPool Task
  pub idle : ℕ
  pub busy : ℕ
  pub returned : ℕ
  pub accepted : List Task
  pub started : List Task

abbrev pub new_workers : (Task : Type 0) → ℕ → Workers Task
new_workers Task threads = record {
  pool = new_thread_pool Task;
  idle = threads;
  busy = 0;
  returned = 0;
  accepted = [];
  started = [];
}

pub data WorkerStep {Task : Type 0} (w : Workers Task) : Workers Task → Type 0 where
  take_task :
      (n : ℕ) (task : Task) (q : ThreadPool Task)
      → w.idle ≡ suc n
      → worker_turn w.pool ≡ runs task q
      → WorkerStep w
          (record w { pool = q; idle = n; busy = suc w.busy; started = w.started ++ (task ∷ []) })
  end_task : (n : ℕ) → w.busy ≡ suc n → WorkerStep w (record w { idle = suc w.idle; busy = n })
  leave :
      (n : ℕ)
      → w.idle ≡ suc n
      → worker_turn w.pool ≡ returns
      → WorkerStep w (record w { idle = n; returned = suc w.returned })

pub data Step {Task : Type 0} (w : Workers Task) : Workers Task → Type 0 where
  work : {v : Workers Task} → WorkerStep w v → Step w v
  add :
      (task : Task)
      → Step w (record w {
        pool = enqueue w.pool task;
        accepted = if w.pool.stop then w.accepted else w.accepted ++ (task ∷ []);
      })
  close : Step w (record w { pool = begin_stop w.pool })

-- What a pool of some threads can come to.
pub data Reachable {Task : Type 0} (threads : ℕ) : Workers Task → Type 0 where
  at_start : Reachable threads (new_workers Task threads)
  after : {v w : Workers Task} → Reachable threads v → Step v w → Reachable threads w

-- Turns of the workers alone.
pub data WorkerSteps {Task : Type 0} : Workers Task → Workers Task → Type 0 where
  done : {w : Workers Task} → WorkerSteps w w
  step : {u v w : Workers Task} → WorkerStep u v → WorkerSteps v w → WorkerSteps u w
