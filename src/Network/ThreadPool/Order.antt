-- ===== src/Network/ThreadPool/Order.antt =====
-- Every task that is accepted is started once, in the order of the calls.
use fion.Prelude.{
  ℕ, ◌<◌, Bool, true, false, List, [], ◌∷◌, ◌++◌, ◌≡◌, refl, sym, ap, ◌∙◌, arith, subst,
  if◌then◌else◌, append_assoc, append-nil, Bool-cases, inl, inr,
}
use fion.Network.ThreadPool.{ThreadPool, Turn, returns, runs, enqueue, begin_stop, worker_turn}
use fion.Network.ThreadPool.Steps.{
  Workers, WorkerStep, take_task, end_task, leave, Step, work, add, close, Reachable, at_start,
  after,
}

module _ {Task : Type 0} where
  abbrev queue_of : Turn Task → List Task
  queue_of (runs task q) = task ∷ q.tasks
  queue_of _ = []

  abbrev stop_of : Bool → Turn Task → Bool
  stop_of stop (runs task q) = q.stop
  stop_of stop _ = stop

  pub turn_runs :
      (tasks : List Task) (stop : Bool) (task : Task) (q : ThreadPool Task)
      → worker_turn (record { tasks = tasks; stop = stop }) ≡ runs task q
      → (tasks ≡ task ∷ q.tasks) × (q.stop ≡ stop)
  unfolding worker_turn
  turn_runs [] true task q h = cc h
  turn_runs [] false task q h = cc h
  turn_runs (t ∷ rest) stop task q h = (ap queue_of h, sym (ap (stop_of stop) h))

  pub turn_returns :
      (tasks : List Task) (stop : Bool)
      → worker_turn (record { tasks = tasks; stop = stop }) ≡ returns
      → (tasks ≡ []) × (stop ≡ true)
  unfolding worker_turn
  turn_returns [] true h = (refl, refl)
  turn_returns [] false h = cc h
  turn_returns (t ∷ rest) stop h = cc h

  -- The tasks that were accepted are those that were started and then those in the queue; once a worker
  -- has returned, the queue is empty and the pool is stopped.
  record InOrder (w : Workers Task) : Type 0 where
    in_order : w.accepted ≡ w.started ++ w.pool.tasks
    finished : 0 < w.returned → (w.pool.tasks ≡ []) × (w.pool.stop ≡ true)

  WorkerStep-InOrder : {v w : Workers Task} → WorkerStep v w → InOrder v → InOrder w
  WorkerStep-InOrder {v} (take_task n task q e t) o =
      let (queued, kept) = turn_runs v.pool.tasks v.pool.stop task q t in
      record {
        in_order =
            o.in_order
            ∙ ap (λ (l : List Task). v.started ++ l) queued
            ∙ sym (append_assoc v.started (task ∷ []) q.tasks);
        finished = λ h. let (empty, stopped) = o.finished h in absurd (cc (empty, queued));
      }
  WorkerStep-InOrder (end_task n e) o = record { in_order = o.in_order; finished = o.finished }
  WorkerStep-InOrder {v} (leave n e t) o = record {
    in_order = o.in_order;
    finished = λ h. turn_returns v.pool.tasks v.pool.stop t;
  }

  enqueued :
      (p : ThreadPool Task) (accepted started : List Task) (task : Task)
      → accepted ≡ started ++ p.tasks
      → (if p.stop then accepted else accepted ++ (task ∷ [])) ≡ started ++ (enqueue p task).tasks
  unfolding enqueue
  enqueued p accepted started task e = elim (Bool-cases p.stop) [
    | inl stopped ↦ rw stopped e
    | inr going ↦
        rw going
          (ap (λ (l : List Task). l ++ (task ∷ [])) e ∙ append_assoc started p.tasks (task ∷ []))
  ]

  dropped : (p : ThreadPool Task) (task : Task) → p.stop ≡ true → enqueue p task ≡ p
  unfolding enqueue
  dropped p task stopped = rw stopped refl

  Step-InOrder : {v w : Workers Task} → Step v w → InOrder v → InOrder w
  unfolding begin_stop
  Step-InOrder (work s) o = WorkerStep-InOrder s o
  Step-InOrder {v} (add task) o = record {
    in_order = enqueued v.pool v.accepted v.started task o.in_order;
    finished = λ h.
        let (empty, stopped) = o.finished h in
        subst (λ (p : ThreadPool Task). (p.tasks ≡ []) × (p.stop ≡ true))
          (sym (dropped v.pool task stopped)) (empty, stopped);
  }
  Step-InOrder {v} close o = record {
    in_order = o.in_order;
    finished = λ h. ((o.finished h).0, refl);
  }

  Reachable-InOrder : {threads : ℕ} {w : Workers Task} → Reachable threads w → InOrder w
  Reachable-InOrder at_start = record { in_order = refl; finished = λ h. absurd (omega arith) }
  Reachable-InOrder (after r s) = Step-InOrder s (Reachable-InOrder r)

  -- In whatever order the calls and the turns of the workers come: the tasks that were accepted are
  -- those that were started, in the order of the calls, and then those in the queue.
  pub tasks_in_order :
      (threads : ℕ) (w : Workers Task)
      → Reachable threads w
      → w.accepted ≡ w.started ++ w.pool.tasks
  tasks_in_order threads w r = (Reachable-InOrder r).in_order

  -- When a worker has returned, every task that was ever accepted was started, once and in order.
  pub all_tasks_started :
      (threads : ℕ) (w : Workers Task)
      → Reachable threads w
      → 0 < w.returned
      → w.accepted ≡ w.started
  all_tasks_started threads w r h =
      let o = Reachable-InOrder r in
      o.in_order ∙ ap (λ (l : List Task). w.started ++ l) (o.finished h).0 ∙ append-nil w.started
