-- ===== src/Network/ThreadPool/Stopping.antt =====
-- The destructor ends: once the pool is stopped, the workers come to their return.
use fion.Prelude.{
  ℕ, zero, suc, ◌+◌, ◌<◌, Bool, true, List, [], ◌∷◌, ◌≡◌, refl, sym, ap, ◌∙◌, arith, length, inl,
  inr, subst, ltb, Bool-cases,
}
use fion.Network.ThreadPool.{worker_turn}
use fion.Network.ThreadPool.Steps.{
  Workers, WorkerStep, take_task, end_task, leave, Step, work, add, close, Reachable, at_start,
  after, WorkerSteps, done, step,
}
use fion.Network.ThreadPool.Order.{turn_runs}

module _ {Task : Type 0} where
  -- What is left to do: three for a task in the queue, two for one that runs, one for a worker that waits.
  abbrev pub left_over : Workers Task → ℕ
  left_over w =
      length w.pool.tasks + length w.pool.tasks + length w.pool.tasks + w.busy + w.busy + w.idle

  -- A stopped pool with a worker that has not returned can go on, and comes closer to its end.
  advance :
      (tasks : List Task) (idle busy returned : ℕ) (accepted started : List Task)
      → 0 < idle + busy
      → (v : Workers Task) × WorkerStep
          (record {
            pool = record { tasks = tasks; stop = true };
            idle = idle;
            busy = busy;
            returned = returned;
            accepted = accepted;
            started = started;
          })
          v
        × (v.pool.stop ≡ true)
        × (left_over v < length tasks + length tasks + length tasks + busy + busy + idle)
        × (v.idle + v.busy + v.returned ≡ idle + busy + returned)
  unfolding worker_turn
  advance tasks idle (suc busy) returned accepted started h =
      (_, end_task busy refl, refl, omega arith, omega arith)
  advance [] (suc idle) zero returned accepted started h =
      (_, leave idle refl refl, refl, omega arith, omega arith)
  advance (t ∷ rest) (suc idle) zero returned accepted started h = (
    _,
    take_task idle t (record { tasks = rest; stop = true }) refl refl,
    refl,
    omega arith,
    omega arith,
  )
  advance tasks zero zero returned accepted started h = absurd (omega arith)

  advance_at :
      (w : Workers Task)
      → w.pool.stop ≡ true
      → 0 < w.idle + w.busy
      → (v : Workers Task) × WorkerStep w v
        × (v.pool.stop ≡ true)
        × (left_over v < left_over w)
        × (v.idle + v.busy + v.returned ≡ w.idle + w.busy + w.returned)
  advance_at w e h =
      subst
        (λ (b : Bool).
          (v : Workers Task) × WorkerStep (record w { pool = record w.pool { stop = b } }) v
          × (v.pool.stop ≡ true)
          × (left_over v < left_over w)
          × (v.idle + v.busy + v.returned ≡ w.idle + w.busy + w.returned))
        (sym e) (advance w.pool.tasks w.idle w.busy w.returned w.accepted w.started h)

  -- Every worker has returned.
  abbrev pub HasEnded : ℕ → Workers Task → Type 0
  HasEnded threads v = (v.idle ≡ 0) × (v.busy ≡ 0) × (v.returned ≡ threads)

  run_down :
      (f : ℕ) (w : Workers Task)
      → left_over w < f
      → w.pool.stop ≡ true
      → (v : Workers Task) × WorkerSteps w v × HasEnded (w.idle + w.busy + w.returned) v
  run_down zero w small e = absurd (omega arith)
  run_down (suc f) w small e = elim (Bool-cases (ltb 0 (w.idle + w.busy))) [
    | inl more ↦
        let (u, first, stopped, less, count) = advance_at w e (ground arith) in
        let (v, others, ended) = run_down f u (omega arith) stopped in
        (v, step first others, (ended.0, ended.1, ended.2 ∙ count))
    | inr none_left ↦ (w, done, (ground arith, ground arith, ground arith))
  ]

  Step-count :
      {v w : Workers Task} → Step v w → w.idle + w.busy + w.returned ≡ v.idle + v.busy + v.returned
  Step-count (work (take_task n task q e t)) = omega (arith, e)
  Step-count (work (end_task n e)) = omega (arith, e)
  Step-count (work (leave n e t)) = omega (arith, e)
  Step-count (add task) = refl
  Step-count close = refl

  Reachable-count :
      {threads : ℕ} {w : Workers Task}
      → Reachable threads w
      → w.idle + w.busy + w.returned ≡ threads
  Reachable-count at_start = omega arith
  Reachable-count (after r s) = Step-count s ∙ Reachable-count r

  WorkerStep-less : {v w : Workers Task} → WorkerStep v w → left_over w < left_over v
  WorkerStep-less {v} (take_task n task q e t) =
      omega (arith, e, ap length (turn_runs v.pool.tasks v.pool.stop task q t).0)
  WorkerStep-less (end_task n e) = omega (arith, e)
  WorkerStep-less (leave n e t) = omega (arith, e)

  -- Once the pool is stopped, the workers can go on until all of them have returned, and they can only
  -- take finitely many turns: each turn lowers a natural number.
  pub workers_return :
      (threads : ℕ) (w : Workers Task)
      → Reachable threads w
      → w.pool.stop ≡ true
      → ((v : Workers Task) × WorkerSteps w v × HasEnded threads v)
        × ((u v : Workers Task) → WorkerStep u v → left_over v < left_over u)
  workers_return threads w r e =
      let ended = run_down (suc (left_over w)) w (omega arith) e in
      (
        subst (λ (n : ℕ). (v : Workers Task) × WorkerSteps w v × HasEnded n v) (Reachable-count r)
            ended,
        λ u v s. WorkerStep-less s,
      )
