-- ===== src/Network/ThreadPool.antt =====
-- headers/network/ThreadPool.hpp and sources/network/ThreadPool.cpp: a queue of tasks and the workers
-- that run them. What the mutex guards is one step; a task is only a name, and it ends.
pub mod Steps
pub mod Order
pub mod Stopping
use fion.Prelude.{ℕ, zero, suc, Bool, true, false, List, [], ◌∷◌, ◌++◌, if◌then◌else◌, length}

pub record ThreadPool (Task : Type 0) : Type 0 where
  pub tasks : List Task
  pub stop : Bool

abbrev pub new_thread_pool : (Task : Type 0) → ThreadPool Task
new_thread_pool Task = record { tasks = []; stop = false }

-- What a worker does when it has woken up: it goes on waiting, it returns, or it runs a task.
pub data Turn (Task : Type 0) : Type 0 where
  waits returns : Turn Task
  runs : Task → ThreadPool Task → Turn Task

module _ {Task : Type 0} where
  -- `enqueue`: a task that comes after the stop is dropped.
  unfoldable pub enqueue : ThreadPool Task → Task → ThreadPool Task
  enqueue p task = if p.stop then p else record p { tasks = p.tasks ++ (task ∷ []) }

  -- The locked part of the destructor.
  unfoldable pub begin_stop : ThreadPool Task → ThreadPool Task
  begin_stop p = record p { stop = true }

  -- One turn of `worker_loop`, from the wait to the unlock.
  unfoldable pub worker_turn : ThreadPool Task → Turn Task
  worker_turn p = elim p.tasks [
    | [] ↦ if p.stop then returns else waits
    | task ∷ rest ↦ runs task (record p { tasks = rest })
  ]

  abbrev pub pending_tasks : ThreadPool Task → ℕ
  pending_tasks p = length p.tasks
