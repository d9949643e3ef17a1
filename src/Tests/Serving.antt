-- ===== src/Tests/Serving.antt =====
-- The theorems of the threads of a pool, and of the server, at concrete runs.
use fion.Prelude.{
  ℕ, zero, suc, ◌<◌, true, false, none, some, List, [], ◌∷◌, ◌≡◌, ◌≢◌, refl, subst, some-eq, inl,
  inr, get_elem?,
}
use fion.Prelude.Int.{pos, negsuc}
use fion.Text.{codes, equal}
use fion.Network.ConnectionPool.{find_client}
use fion.Network.EventLoop.{stop}
use fion.Network.Listener.{BindAnswers, bind, listen, accept_client}
use fion.Network.Pool.Adding.{fresh_client, stale_client_closes}
use fion.Network.Pool.Events.{Pool, pool_add_client}
use fion.Network.Pool.Settled.{client_at}
use fion.Network.Pool.Lifecycle.{
  no_thread, spawned, looping, returned, outside, joining, Lifecycle, run_pool, begin_stop_pool,
  enter_loop, test_loop, LifecycleStep, run_step, stop_step, enter_step, test_step, LifecycleSteps,
  no_step, step_then, OfNewPool,
}
use fion.Network.Pool.Lifecycle.Stopping.{turns_left, stop_before_loop, stop_in_loop}
use fion.Network.Server.{
  new_server, new_pool, StartAnswers, AcceptTurn, accept_turn, after_bind, after_listen, add_pools,
  launch, start_server, accept_loop,
}
use fion.Network.Server.Starting.{StaysDown, start_server_throws}
use fion.Network.Server.Accepting.{AreFresh, IsServing, Served, start_server-Served}
use fion.Network.PoolManager.{add_pool}
use fion.Tests.Sample.{idle_pool, user_router}
use fion.Tests.Connections.{idle_InSync, no_five}

abbrev stopped_early : Lifecycle
stopped_early = record { loop = record { running = false }; thread = spawned; owner = joining }

abbrev looping_on : Lifecycle
looping_on = record { loop = record { running = true }; thread = looping; owner = joining }

stopped_early-OfNewPool : OfNewPool stopped_early
unfolding run_pool begin_stop_pool stop
stopped_early-OfNewPool = step_then (run_step refl refl) (step_then (stop_step refl) no_step)

early_steps : LifecycleSteps stopped_early looping_on
unfolding enter_loop
early_steps = step_then (enter_step refl) no_step

stop_before_loop_example : looping_on.owner ≡ joining
stop_before_loop_example =
    stop_before_loop stopped_early looping_on stopped_early-OfNewPool refl refl early_steps

abbrev stopped_late : Lifecycle
stopped_late = record { loop = record { running = false }; thread = looping; owner = joining }

abbrev loop_left : Lifecycle
loop_left = record { loop = record { running = false }; thread = returned; owner = joining }

stopped_late-OfNewPool : OfNewPool stopped_late
unfolding run_pool begin_stop_pool enter_loop stop
stopped_late-OfNewPool =
    step_then (run_step refl refl)
      (step_then (enter_step refl) (step_then (stop_step refl) no_step))

late_step : LifecycleStep stopped_late loop_left
unfolding test_loop
late_step = test_step refl

stop_in_loop_example :
    ((m : Lifecycle) × LifecycleSteps stopped_late m × (m.owner ≡ outside) × (m.thread ≡ no_thread))
    × (turns_left loop_left.thread < turns_left stopped_late.thread)
    × (loop_left.thread ≢ spawned)
    × (loop_left.loop.running ≡ false)
stop_in_loop_example =
    stop_in_loop stopped_late loop_left stopped_late-OfNewPool refl (λ e. cc e) refl late_step

stale_client_closes_example :
    ((pool_add_client (pool_add_client idle_pool (pos 5) false).0 (pos 5) true).0.closed_fds
      ≡ pos 5 ∷ idle_pool.closed_fds)
    × (client_at
          (pos 5)
          (pool_add_client (pool_add_client idle_pool (pos 5) false).0 (pos 5) true).0
        ≡ some (fresh_client (pos 5)))
stale_client_closes_example = stale_client_closes idle_pool (pos 5) true idle_InSync refl no_five

abbrev good_socket : BindAnswers
good_socket = record {
  socket_fd = pos 4;
  reuse_set = true;
  non_blocking = true;
  valid_address = true;
  bound = true;
}

abbrev pub good_start : StartAnswers
good_start = record { bind_answers = good_socket; listens = true }

abbrev busy_port : StartAnswers
busy_port = record { bind_answers = record good_socket { bound = false }; listens = true }

busy_port_throws : (start_server (new_server user_router) (codes "0.0.0.0") busy_port 4).1 ≢ none
unfolding start_server bind after_bind equal
busy_port_throws = λ e. cc e

start_server_throws_example :
    StaysDown
      (new_server user_router)
      (start_server (new_server user_router) (codes "0.0.0.0") busy_port 4)
      (codes "127.0.0.1")
      good_start
      4
start_server_throws_example =
    start_server_throws (new_server user_router) (codes "0.0.0.0") busy_port 4 (codes "127.0.0.1")
      good_start 4 refl busy_port_throws

starts : (start_server (new_server user_router) (codes "0.0.0.0") good_start 1).1 ≡ none
unfolding start_server bind listen after_bind after_listen equal
starts = refl

abbrev one_client : List AcceptTurn
one_client =
    record { goes_on = true; accepted = negsuc 0; registered = true }
    ∷ (record { goes_on = true; accepted = pos 9; registered = true } ∷ [])

nobody :
    (j : ℕ) (p : Pool)
    → get_elem? (new_pool user_router ∷ []) j ≡ some p
    → client_at (pos 9) p ≡ none
unfolding find_client
nobody zero p h = subst (λ q. client_at (pos 9) q ≡ none) (some-eq h) refl
nobody (suc j) p h = cc h

one_client-AreFresh :
    AreFresh one_client (start_server (new_server user_router) (codes "0.0.0.0") good_start 1).0
unfolding accept_client start_server bind listen after_bind after_listen equal launch add_pools
    add_pool accept_turn
one_client-AreFresh = (inl refl, (inr (refl, nobody), tt))

start_server-Served_example :
    IsServing (start_server (new_server user_router) (codes "0.0.0.0") good_start 1).0.manager
    × Served (start_server (new_server user_router) (codes "0.0.0.0") good_start 1).0 (
        accept_loop one_client
          (start_server (new_server user_router) (codes "0.0.0.0") good_start 1).0)
start_server-Served_example =
    start_server-Served user_router (codes "0.0.0.0") good_start 0 one_client starts
      one_client-AreFresh
