-- ===== src/Tests/Running.antt =====
-- The theorems of the pool of threads, of the listener and of the logger at concrete runs.
use fion.Prelude.Int.{ℤ}
use fion.Network.Client.{destroy_client, move_client, move_assign, get_request_data}
use fion.Network.Listener.{Listener, move_listener, assign_listener}
use fion.Network.Poller.{Poller, destroy_poller, move_poller, assign_poller}
use fion.Network.Ownership.{held, moves_keep_descriptors}
use fion.Tests.Sample.{sample_client}
use fion.Prelude.{ℕ, ◌<◌, true, [], ◌∷◌, ◌≡◌, refl, arith}
use fion.Prelude.{none, ◌≢◌, ◌⊎◌, false, ◌++◌}
use fion.Prelude.Int.{pos}
use fion.Text.{codes}
use fion.Prelude.{if◌then◌else◌}
use fion.Logging.{LogLevel, to_priority, first_logger, init, shutdown, set_level, log, passes}
use fion.Logging.Filter.{IsConsistent, log_filter}
use fion.Network.Listener.{BindAnswers, new_listener, bind, close_listener}
use fion.Network.Listener.Descriptor.{bind_then_close}
use fion.Network.ThreadPool.{enqueue, begin_stop, worker_turn}
use fion.Network.ThreadPool.Steps.{
  Workers, WorkerStep, WorkerSteps, take_task, end_task, leave, work, add, close, Reachable,
  at_start, after,
}
use fion.Network.ThreadPool.Order.{all_tasks_started}
use fion.Network.ThreadPool.Stopping.{left_over, HasEnded, workers_return}

-- Two tasks come, the pool is stopped, and the only worker runs both and returns.
abbrev two_queued : Workers ℕ
two_queued = record {
  pool = record { tasks = 7 ∷ (8 ∷ []); stop = true };
  idle = 1;
  busy = 0;
  returned = 0;
  accepted = 7 ∷ (8 ∷ []);
  started = [];
}

abbrev all_returned : Workers ℕ
all_returned = record {
  pool = record { tasks = []; stop = true };
  idle = 0;
  busy = 0;
  returned = 1;
  accepted = 7 ∷ (8 ∷ []);
  started = 7 ∷ (8 ∷ []);
}

two_queued-Reachable : Reachable 1 two_queued
unfolding enqueue begin_stop
two_queued-Reachable = after (after (after at_start (add 7)) (add 8)) close

all_returned-Reachable : Reachable 1 all_returned
unfolding worker_turn
all_returned-Reachable =
    after
      (after
        (after
          (after
            (after two_queued-Reachable
              (work (take_task 0 7 (record { tasks = 8 ∷ []; stop = true }) refl refl)))
            (work (end_task 0 refl)))
          (work (take_task 0 8 (record { tasks = []; stop = true }) refl refl)))
        (work (end_task 0 refl)))
      (work (leave 0 refl refl))

all_tasks_started_example : all_returned.accepted ≡ all_returned.started
all_tasks_started_example = all_tasks_started 1 all_returned all_returned-Reachable (omega arith)

workers_return_example :
    ((v : Workers ℕ) × WorkerSteps two_queued v × HasEnded 1 v)
    × ((u v : Workers ℕ) → WorkerStep u v → left_over v < left_over u)
workers_return_example = workers_return 1 two_queued two_queued-Reachable refl

abbrev address_taken : BindAnswers
address_taken = record {
  socket_fd = pos 4;
  reuse_set = true;
  non_blocking = true;
  valid_address = true;
  bound = false;
}

bind_then_close_example :
    (((bind new_listener (codes "127.0.0.1") address_taken).1 ≡ none)
      × ((close_listener (bind new_listener (codes "127.0.0.1") address_taken).0).closed_fds
          ≡ address_taken.socket_fd ∷ new_listener.closed_fds))
    ⊎ (((bind new_listener (codes "127.0.0.1") address_taken).1 ≢ none)
        × ((close_listener (bind new_listener (codes "127.0.0.1") address_taken).0).closed_fds
            ≡ address_taken.socket_fd ∷ (address_taken.socket_fd ∷ new_listener.closed_fds)))
bind_then_close_example = bind_then_close new_listener (codes "127.0.0.1") address_taken refl

quiet-IsConsistent : IsConsistent (set_level first_logger LogLevel.warning)
unfolding set_level
quiet-IsConsistent = refl

log_filter_example :
    IsConsistent (init (set_level first_logger LogLevel.warning))
    × IsConsistent (shutdown (set_level first_logger LogLevel.warning))
    × IsConsistent (set_level (set_level first_logger LogLevel.warning) LogLevel.info)
    × (log (set_level first_logger LogLevel.warning) LogLevel.info (codes "x") ≡ (
        if passes (set_level first_logger LogLevel.warning).syslog_mask (to_priority LogLevel.info)
        then (to_priority LogLevel.info, codes "x") ∷ []
        else []))
log_filter_example =
    log_filter (set_level first_logger LogLevel.warning) LogLevel.info (codes "x")
      quiet-IsConsistent

abbrev four_listens : Listener
four_listens = record new_listener { listen_fd = pos 4; is_listening = true }

abbrev poller_on : ℤ → Poller
poller_on fd = record { instance_fd = fd }

moves_keep_descriptors_example :
    (destroy_client (move_client (sample_client (pos 5))).0
        ++ destroy_client (move_client (sample_client (pos 5))).1
      ≡ held (pos 5))
    × ((move_assign (sample_client (pos 5)) (sample_client (pos 6))).2
          ++ (destroy_client (move_assign (sample_client (pos 5)) (sample_client (pos 6))).0
              ++ destroy_client (move_assign (sample_client (pos 5)) (sample_client (pos 6))).1)
        ≡ held (pos 5) ++ held (pos 6))
    × (get_request_data (move_client (sample_client (pos 5))).0 ≡ [])
    × (get_request_data (move_assign (sample_client (pos 5)) (sample_client (pos 6))).0
        ≡ get_request_data (sample_client (pos 5)))
    × ((close_listener (move_listener four_listens).0).closed_fds
          ++ (close_listener (move_listener four_listens).1).closed_fds
        ≡ held four_listens.listen_fd ++ four_listens.closed_fds)
    × ((close_listener (assign_listener four_listens new_listener).0).closed_fds
        ≡ held new_listener.listen_fd ++ (held four_listens.listen_fd ++ four_listens.closed_fds))
    × ((close_listener (assign_listener four_listens new_listener).1).closed_fds
        ≡ new_listener.closed_fds)
    × (destroy_poller (move_poller (poller_on (pos 8))).0
          ++ destroy_poller (move_poller (poller_on (pos 8))).1
        ≡ destroy_poller (poller_on (pos 8)))
    × ((assign_poller (poller_on (pos 7)) (poller_on (pos 8))).2
          ++ (destroy_poller (assign_poller (poller_on (pos 7)) (poller_on (pos 8))).0
              ++ destroy_poller (assign_poller (poller_on (pos 7)) (poller_on (pos 8))).1)
        ≡ destroy_poller (poller_on (pos 7)) ++ destroy_poller (poller_on (pos 8)))
moves_keep_descriptors_example =
    moves_keep_descriptors (sample_client (pos 5)) (sample_client (pos 6)) four_listens new_listener
      (poller_on (pos 7)) (poller_on (pos 8))
