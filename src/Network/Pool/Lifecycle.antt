-- ===== src/Network/Pool/Lifecycle.antt =====
-- `Pool::run` and `Pool::stop`: the thread of a pool, and the thread that starts and stops it, in
-- any interleaving. A turn of the loop is one step, which EventLoop models.
pub mod Stopping
use fion.Prelude.{Bool, true, false, ◌≡◌, if◌then◌else◌}
use fion.Network.EventLoop.{EventLoop, new_event_loop, stop}

-- `_thread`: not joinable, started and not yet in the loop, in the loop, or at its end.
pub data ThreadPhase : Type 0 where
  no_thread spawned looping returned : ThreadPhase

-- The owner is in no call, or in `stop`, behind `_loop.stop()`.
pub data OwnerPhase : Type 0 where
  outside joining : OwnerPhase

pub record Lifecycle : Type 0 where
  pub loop : EventLoop
  pub thread : ThreadPhase
  pub owner : OwnerPhase

abbrev pub new_lifecycle : Lifecycle
new_lifecycle = record { loop = new_event_loop; thread = no_thread; owner = outside }

-- `run`: a new thread, which calls `_loop.run()`.
unfoldable pub run_pool : Lifecycle → Lifecycle
run_pool l = record l { thread = spawned }

abbrev owner_after : ThreadPhase → OwnerPhase
owner_after no_thread = outside
owner_after spawned = joining
owner_after looping = joining
owner_after returned = joining

-- `stop` up to `join`, which it calls when there is a thread.
unfoldable pub begin_stop_pool : Lifecycle → Lifecycle
begin_stop_pool l = record { loop = stop l.loop; thread = l.thread; owner = owner_after l.thread }

-- `_running.exchange(true)` in the new thread.
unfoldable pub enter_loop : Lifecycle → Lifecycle
enter_loop l =
    if l.loop.running
    then record l { thread = returned }
    else record l { loop = record { running = true }; thread = looping }

-- `_running.load()` in the loop.
unfoldable pub test_loop : Lifecycle → Lifecycle
test_loop l = if l.loop.running then l else record l { thread = returned }

-- `join` returns: the thread can be joined no more.
unfoldable pub end_stop_pool : Lifecycle → Lifecycle
end_stop_pool l = record l { thread = no_thread; owner = outside }

-- A step of one of the two threads. A second `run` before a `stop` would end the program, since a
-- thread that can be joined is assigned to.
pub data LifecycleStep (l : Lifecycle) : Lifecycle → Type 0 where
  run_step : l.owner ≡ outside → l.thread ≡ no_thread → LifecycleStep l (run_pool l)
  stop_step : l.owner ≡ outside → LifecycleStep l (begin_stop_pool l)
  enter_step : l.thread ≡ spawned → LifecycleStep l (enter_loop l)
  test_step : l.thread ≡ looping → LifecycleStep l (test_loop l)
  join_step : l.owner ≡ joining → l.thread ≡ returned → LifecycleStep l (end_stop_pool l)

pub data LifecycleSteps : Lifecycle → Lifecycle → Type 0 where
  no_step : {l : Lifecycle} → LifecycleSteps l l
  step_then : {u v w : Lifecycle} → LifecycleStep u v → LifecycleSteps v w → LifecycleSteps u w

-- What a new pool can come to.
abbrev pub OfNewPool : Lifecycle → Type 0
OfNewPool l = LifecycleSteps new_lifecycle l
