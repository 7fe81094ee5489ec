-- ===== src/TaskQueue/Delivery.antt =====
-- No task is lost, duplicated or reordered, and no push is missed by a sleeping worker
-- (MqMessageService/TaskQueue.h).
use shapeware.Base.{
  ◌≡◌, refl, ◌⊎◌, inr, Bool, true, false, List, [], ◌∷◌, ◌++◌, none, some, ap, ◌∙◌, append_assoc,
  arith,
}
use shapeware.TaskQueue.{
  Worker, testing, waiting, processing, relocking, exited, TaskQueue, init, push_to_queue,
  stop_queue, inner_loop, worker_at, worker_step, Step, pushes, stops, works, Reach, here, next,
}

module _ {ℓ} {T : Type ℓ} where
  abbrev pub in_flight : Worker T → List T
  in_flight (processing t) = t ∷ []
  in_flight _ = []

  -- The worker will look at the queue only after a wake-up.
  abbrev pub sleeps : Worker T → Bool
  sleeps testing = true
  sleeps waiting = true
  sleeps _ = false

  pub record Inv (q : TaskQueue T) : Type ℓ where
    pub in_order : q.accepted ≡ q.processed ++ (in_flight q.worker ++ q.tasks)
    pub push_seen :
        sleeps q.worker ≡ true
        → q.run_worker_thread ≡ true
        → (q.tasks ≡ []) ⊎ (q.task_pushed ≡ true)
    pub stop_seen : q.worker ≡ waiting → q.run_worker_thread ≡ false → q.task_pushed ≡ true
    pub exit_stopped : q.worker ≡ exited → q.run_worker_thread ≡ false

  pub init-Inv : Inv (init {T = T})
  unfolding init
  init-Inv = ground arith

  push-Inv : (t : T) (q : TaskQueue T) → Inv q → Inv (push_to_queue t q).0
  unfolding push_to_queue
  push-Inv t q v = record {
    in_order =
        ap (λ l. l ++ t ∷ []) v.in_order
        ∙ append_assoc q.processed (in_flight q.worker ++ q.tasks) (t ∷ [])
        ∙ ap (λ l. q.processed ++ l) (append_assoc (in_flight q.worker) q.tasks (t ∷ []));
    push_seen = λ _ _. inr refl;
    stop_seen = λ _ _. refl;
    exit_stopped = v.exit_stopped;
  }

  pub stop-Inv : (q : TaskQueue T) → Inv q → Inv (stop_queue q)
  unfolding stop_queue
  stop-Inv q v = ground (arith, v.in_order)

  inner_loop-Inv : (q : TaskQueue T) → q.accepted ≡ q.processed ++ q.tasks → Inv (inner_loop q)
  unfolding inner_loop
  inner_loop-Inv q e = ground arith

  worker_at-Inv :
      (w : Worker T) (q : TaskQueue T) {q' : TaskQueue T}
      → q.worker ≡ w
      → Inv q
      → worker_at w q ≡ some q'
      → Inv q'
  unfolding worker_at
  worker_at-Inv testing q e v h = ground arith
  worker_at-Inv waiting q e v h = ground arith
  worker_at-Inv (processing t) q e v h = ground (arith, append_assoc q.processed (t ∷ []) q.tasks)
  worker_at-Inv relocking q e v h = ground arith
  worker_at-Inv exited q e v h = cc

  Step-Inv : {q q' : TaskQueue T} → Step q q' → Inv q → Inv q'
  unfolding worker_step
  Step-Inv {q} (pushes t) v = push-Inv t q v
  Step-Inv {q} stops v = stop-Inv q v
  Step-Inv {q} (works h) v = worker_at-Inv q.worker q refl v h

  pub worker_step-Inv : {q q' : TaskQueue T} → Inv q → worker_step q ≡ some q' → Inv q'
  worker_step-Inv v h = Step-Inv (works h) v

  pub Reach-Inv : {q q' : TaskQueue T} → Reach q q' → Inv q → Inv q'
  Reach-Inv here v = v
  Reach-Inv (next r st) v = Step-Inv st (Reach-Inv r v)

  -- In every state that the threads can reach from a new queue, the tasks accepted by
  -- `pushToQueue` are, in that order, those processed, the one taken by the worker and not yet
  -- processed, if any, and those in the queue.
  pub accepted_in_order :
      {q : TaskQueue T} → Reach init q → q.accepted ≡ q.processed ++ (in_flight q.worker ++ q.tasks)
  accepted_in_order r = (Reach-Inv r init-Inv).in_order

  -- In every state that the threads can reach from a new queue, the worker thread cannot move only
  -- if it has returned after a stop, or if the queue is empty and was not stopped: no wake-up is
  -- missed.
  pub blocked_only_if_idle :
      {q : TaskQueue T}
      → Reach init q
      → worker_step q ≡ none
      → ((q.worker ≡ exited) × (q.run_worker_thread ≡ false))
        ⊎ ((q.worker ≡ waiting) × (q.run_worker_thread ≡ true) × (q.tasks ≡ []))
  unfolding worker_step
  blocked_only_if_idle {q} r h = ground (arith, Reach-Inv r init-Inv)
