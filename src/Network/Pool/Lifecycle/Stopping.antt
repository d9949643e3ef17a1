-- ===== src/Network/Pool/Lifecycle/Stopping.antt =====
-- When `Pool::stop` returns.
use fion.Prelude.{ℕ, Bool, true, false, ◌≡◌, ◌≢◌, ◌<◌, not, refl, arith, inl, inr, ◌⊎◌}
use fion.Network.EventLoop.{stop}
use fion.Network.Pool.Lifecycle.{
  ThreadPhase, no_thread, spawned, looping, returned, OwnerPhase, outside, joining, Lifecycle,
  new_lifecycle, run_pool, begin_stop_pool, enter_loop, test_loop, end_stop_pool, LifecycleStep,
  run_step, stop_step, enter_step, test_step, join_step, LifecycleSteps, no_step, step_then,
  OfNewPool,
}

-- A call of `stop` that waits for a thread that will not return.
abbrev hangs : Bool → ThreadPhase → OwnerPhase → Bool
hangs running no_thread owner = false
hangs running spawned outside = false
hangs running spawned joining = not running
hangs running looping outside = false
hangs running looping joining = running
hangs running returned owner = false

-- The other states that a pool can be in.
abbrev proceeds : Bool → ThreadPhase → OwnerPhase → Bool
proceeds running no_thread outside = not running
proceeds running no_thread joining = false
proceeds running spawned outside = not running
proceeds running spawned joining = false
proceeds running looping outside = running
proceeds running looping joining = not running
proceeds running returned outside = false
proceeds running returned joining = not running

abbrev Hangs : Lifecycle → Type 0
Hangs l = hangs l.loop.running l.thread l.owner ≡ true

abbrev Proceeds : Lifecycle → Type 0
Proceeds l = proceeds l.loop.running l.thread l.owner ≡ true

hanging : {l v : Lifecycle} → Hangs l → LifecycleStep l v → Hangs v
unfolding run_pool begin_stop_pool enter_loop test_loop end_stop_pool stop
hanging h (run_step o t) = ground (arith, h, o, t)
hanging h (stop_step o) = ground (arith, h, o)
hanging h (enter_step t) = ground (arith, h, t)
hanging h (test_step t) = ground (arith, h, t)
hanging h (join_step o t) = ground (arith, h, o, t)

proceeding : {l v : Lifecycle} → Proceeds l → LifecycleStep l v → Hangs v ⊎ Proceeds v
unfolding run_pool begin_stop_pool enter_loop test_loop end_stop_pool stop
proceeding h (run_step o t) = ground (arith, h, o, t)
proceeding h (stop_step o) = ground (arith, h, o)
proceeding h (enter_step t) = ground (arith, h, t)
proceeding h (test_step t) = ground (arith, h, t)
proceeding h (join_step o t) = ground (arith, h, o, t)

always : {l m : Lifecycle} → Hangs l → LifecycleSteps l m → Hangs m
always h no_step = h
always h (step_then s rest) = always (hanging h s) rest

known : {l m : Lifecycle} → Hangs l ⊎ Proceeds l → LifecycleSteps l m → Hangs m ⊎ Proceeds m
known h no_step = h
known (inl h) (step_then s rest) = inl (always (hanging h s) rest)
known (inr h) (step_then s rest) = known (proceeding h s) rest

in_one : {l : Lifecycle} → OfNewPool l → Hangs l ⊎ Proceeds l
in_one steps = known {l = new_lifecycle} (inr refl) steps

waits : (l : Lifecycle) → Hangs l → l.owner ≡ joining
waits l h = ground (arith, h)

-- A pool that `stop` is called on while its new thread has not begun its loop: the call does not return,
-- whatever the threads do, since the thread sets the flag of the loop again.
pub stop_before_loop :
    (l m : Lifecycle)
    → OfNewPool l
    → l.owner ≡ joining
    → l.thread ≡ spawned
    → LifecycleSteps l m
    → m.owner ≡ joining
stop_before_loop l m steps o t later =
    let either = in_one steps in waits m (always {l = l} (ground (arith, either, o, t)) later)

-- How many turns the thread has left when the flag of its loop is false.
abbrev pub turns_left : ThreadPhase → ℕ
turns_left no_thread = 0
turns_left spawned = 3
turns_left looping = 2
turns_left returned = 1

ends :
    (running : Bool) (phase : ThreadPhase) (owner : OwnerPhase)
    → proceeds running phase owner ≡ true
    → owner ≡ joining
    → (m : Lifecycle) × LifecycleSteps
        (record { loop = record { running = running }; thread = phase; owner = owner })
        m
      × (m.owner ≡ outside)
      × (m.thread ≡ no_thread)
unfolding test_loop end_stop_pool
ends running phase outside h o = cc o
ends running no_thread joining h o = cc h
ends running spawned joining h o = cc h
ends true looping joining h o = cc h
ends false looping joining h o =
    (_, step_then (test_step refl) (step_then (join_step refl refl) no_step), refl, refl)
ends running returned joining h o = (_, step_then (join_step refl refl) no_step, refl, refl)

goes_ahead :
    (l : Lifecycle)
    → OfNewPool l
    → l.owner ≡ joining
    → l.thread ≢ spawned
    → l.loop.running ≡ false
    → Proceeds l
goes_ahead l steps o t r = let either = in_one steps in ground (arith, either, o, t, r)

closer :
    {l v : Lifecycle}
    → Proceeds l
    → l.owner ≡ joining
    → LifecycleStep l v
    → (turns_left v.thread < turns_left l.thread) × (v.thread ≢ spawned) × (v.loop.running ≡ false)
unfolding run_pool begin_stop_pool enter_loop test_loop end_stop_pool stop
closer h o (run_step other t) = cc (o, other)
closer h o (stop_step other) = cc (o, other)
closer h o (enter_step t) = ground (arith, h, o, t)
closer h o (test_step t) = ground (arith, h, o, t)
closer h o (join_step _ t) = ground (arith, h, o, t)

-- A pool that `stop` is called on while its thread is in the loop, or has left it, so that the flag of
-- the loop is false: the call can return, with a thread that is joined; and every step, of any
-- thread, brings it closer to that, and leaves the flag false and the thread not before its loop.
pub stop_in_loop :
    (l v : Lifecycle)
    → OfNewPool l
    → l.owner ≡ joining
    → l.thread ≢ spawned
    → l.loop.running ≡ false
    → LifecycleStep l v
    → ((m : Lifecycle) × LifecycleSteps l m × (m.owner ≡ outside) × (m.thread ≡ no_thread))
      × (turns_left v.thread < turns_left l.thread)
      × (v.thread ≢ spawned)
      × (v.loop.running ≡ false)
stop_in_loop l v steps o t r s =
    let h = goes_ahead l steps o t r in
    let (less, not_new, quiet) = closer h o s in
    (ends l.loop.running l.thread l.owner h o, less, not_new, quiet)

-- The whole of `stop` on a pool whose thread is in its loop is a run of the two threads.
pub stop_pool-LifecycleSteps :
    LifecycleSteps
      (record { loop = record { running = true }; thread = looping; owner = outside })
      (end_stop_pool (
        begin_stop_pool
          (record { loop = record { running = true }; thread = looping; owner = outside })))
unfolding begin_stop_pool test_loop end_stop_pool stop
stop_pool-LifecycleSteps =
    step_then (stop_step refl)
      (step_then (test_step refl) (step_then (join_step refl refl) no_step))
