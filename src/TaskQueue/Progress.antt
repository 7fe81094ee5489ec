-- ===== src/TaskQueue/Progress.antt =====
-- The worker thread drains the queue, and returns after a stop (MqMessageService/TaskQueue.h).
use shapeware.Base.{
  ℕ, zero, suc, ◌+◌, ◌*◌, ◌≤◌, ◌<◌, ◌≡◌, ◌∙◌, Bool, true, false, [], ◌++◌, none, some, length,
  append-nil, arith, Option-cases, inl, inr,
}
use shapeware.TaskQueue.{
  Worker, testing, waiting, processing, relocking, exited, TaskQueue, init, stop_queue, worker_step,
  run_worker, Reach,
}
use shapeware.TaskQueue.Delivery.{in_flight, Inv, init-Inv, Reach-Inv, worker_step-Inv}

abbrev pub pushed_distance : Bool → ℕ
pushed_distance true = 3
pushed_distance false = 0

module _ {ℓ} {T : Type ℓ} where
  abbrev pub distance : Worker T → ℕ
  distance waiting = 0
  distance testing = 1
  distance relocking = 2
  distance (processing t) = 3
  distance exited = 0

  -- How many steps of its own the worker can make before it blocks.
  abbrev pub steps_left : TaskQueue T → ℕ
  steps_left q = 2 * length q.tasks + pushed_distance q.task_pushed + distance q.worker

  worker_step-steps_left :
      (q q' : TaskQueue T)
      → q.run_worker_thread ≡ true
      → worker_step q ≡ some q'
      → (steps_left q' < steps_left q) × (q'.accepted ≡ q.accepted) × (q'.run_worker_thread ≡ true)
  unfolding worker_step
  worker_step-steps_left q q' run h = ground arith

  blocked_drained :
      (q : TaskQueue T)
      → Inv q
      → q.run_worker_thread ≡ true
      → worker_step q ≡ none
      → (q.tasks ≡ []) × (q.worker ≡ waiting)
  unfolding worker_step
  blocked_drained q v run h = ground (arith, v.push_seen, v.exit_stopped)

  blocked-accepted :
      (q : TaskQueue T)
      → Inv q
      → q.run_worker_thread ≡ true
      → worker_step q ≡ none
      → (q.tasks ≡ []) × (q.worker ≡ waiting) × (q.processed ≡ q.accepted)
  blocked-accepted q v run h =
      let (empty, waits) = blocked_drained q v run h in
      (empty, waits, ground (arith, v.in_order, append-nil q.processed))

  run_worker-drains :
      (fuel : ℕ) (q : TaskQueue T)
      → steps_left q ≤ fuel
      → Inv q
      → q.run_worker_thread ≡ true
      → ((run_worker fuel q).tasks ≡ [])
        × ((run_worker fuel q).worker ≡ waiting)
        × ((run_worker fuel q).processed ≡ q.accepted)
  unfolding run_worker
  run_worker-drains zero q h v run = elim (Option-cases (worker_step q)) [
    | inl e ↦ blocked-accepted q v run e
    | inr (q', e) ↦ absurd (omega (arith, worker_step-steps_left q q' run e))
  ]
  run_worker-drains (suc fuel) q h v run = elim (Option-cases (worker_step q)) [
    | inl e ↦ rw (e, run_worker) (blocked-accepted q v run e)
    | inr (q', e) ↦
        let (closer, same, run') = worker_step-steps_left q q' run e in
        let (empty, waits, all) =
          run_worker-drains fuel q' (omega arith) (worker_step-Inv v e) run' in
        rw (e, run_worker) (empty, waits, all ∙ same)
  ]

  -- From every state that the threads can reach from a new queue and in which the queue is not
  -- stopped, the worker thread alone, given `steps_left` steps or more, empties the queue, has
  -- processed every task ever accepted, in the order of the pushes, and waits.
  pub worker_drains :
      {q : TaskQueue T} (fuel : ℕ)
      → Reach init q
      → q.run_worker_thread ≡ true
      → steps_left q ≤ fuel
      → ((run_worker fuel q).tasks ≡ [])
        × ((run_worker fuel q).worker ≡ waiting)
        × ((run_worker fuel q).processed ≡ q.accepted)
  worker_drains {q} fuel r run h = run_worker-drains fuel q h (Reach-Inv r init-Inv) run

  -- From every state, once `stopQueue` has been called the worker thread, with no other thread
  -- acting, has returned after three steps of its own; it processes the task that it had taken, if
  -- it was not yet processed, and no other, so the rest stay in the queue.
  pub stop_returns :
      (q : TaskQueue T)
      → ((run_worker 3 (stop_queue q)).worker ≡ exited)
        × ((run_worker 3 (stop_queue q)).processed ≡ q.processed ++ in_flight q.worker)
        × ((run_worker 3 (stop_queue q)).tasks ≡ q.tasks)
  unfolding run_worker worker_step stop_queue
  stop_returns q = ground (arith, append-nil q.processed)
