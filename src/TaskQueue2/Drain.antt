-- ===== src/TaskQueue2/Drain.antt =====
-- A processing function that succeeds empties the queue (include/TaskQueue2.h).
use shapeware.Base.{
  ◌≡◌, refl, sym, ◌∙◌, Bool, true, List, [], ◌∷◌, ◌++◌, append_assoc, append-nil, arith,
}
use shapeware.TaskQueue2.{testing, TaskQueue2, worker_step, run_worker}

module _ {ℓ} {T : Type ℓ} where
  -- One round of the worker's loop for each task, its processing successful.
  abbrev pub success_rounds : List T → List Bool
  success_rounds [] = []
  success_rounds (t ∷ ts) = true ∷ true ∷ true ∷ true ∷ success_rounds ts

  abbrev pub succeed_all : List T → List (T × Bool)
  succeed_all [] = []
  succeed_all (t ∷ ts) = (t, true) ∷ succeed_all ts

  abbrev after_round : TaskQueue2 T → T → List T → TaskQueue2 T
  after_round q t ts = record q {
    tasks = ts;
    worker = testing;
    attempts = q.attempts ++ (t, true) ∷ [];
  }

  one_round :
      (q : TaskQueue2 T) (t : T) (ts : List T) (results : List Bool)
      → q.worker ≡ testing
      → q.run_worker_thread ≡ true
      → q.tasks ≡ t ∷ ts
      → run_worker (true ∷ true ∷ true ∷ true ∷ results) q ≡ run_worker results (after_round q t ts)
  unfolding run_worker worker_step
  one_round q t ts results w run e = ground arith

  -- From every state in which the worker is at its loop test and the queue is not stopped: when the
  -- processing function returns true each time, the worker alone empties the queue in four steps
  -- for each task, with one call of the processing function for each task, in the queue's order.
  pub success-drains :
      (ts : List T) (q : TaskQueue2 T)
      → q.tasks ≡ ts
      → q.worker ≡ testing
      → q.run_worker_thread ≡ true
      → ((run_worker (success_rounds ts) q).tasks ≡ [])
        × ((run_worker (success_rounds ts) q).worker ≡ testing)
        × ((run_worker (success_rounds ts) q).attempts ≡ q.attempts ++ succeed_all ts)
  success-drains [] q e w run = (
    unfold run_worker in e,
    unfold run_worker in w,
    unfold run_worker in sym (append-nil q.attempts),
  )
  success-drains (t ∷ ts) q e w run =
      let (empty, waits, all) = success-drains ts (after_round q t ts) refl refl run in
      rw (one_round q t ts (success_rounds ts) w run e)
        (empty, waits, all ∙ append_assoc q.attempts ((t, true) ∷ []) (succeed_all ts))
