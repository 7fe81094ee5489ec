-- ===== src/TaskQueue2/Race.antt =====
-- What `pop` does while a task is processed (include/TaskQueue2.h): it takes the head of the queue,
-- which is the task under way, and the worker then removes the entry behind it.
use shapeware.Base.{◌≡◌, Bool, true, List, [], ◌∷◌, ◌++◌, some, arith}
use shapeware.TaskQueue2.{processing, TaskQueue2, pop, worker_step, run_worker}

module _ {ℓ} {T : Type ℓ} where
  -- In every state in which the worker is about to process the head `t` of a queue of two or more
  -- tasks: when another thread calls `pop` and the processing of `t` then succeeds, `pop` returned
  -- `t` as well, and the task behind `t` is gone from the queue although the processing function
  -- was called on `t` alone.
  pop-loses_next :
      (q q' : TaskQueue2 T) (t u x : T) (ts : List T) (later : Bool)
      → q.worker ≡ processing t
      → q.tasks ≡ t ∷ u ∷ ts
      → pop q ≡ some (x, q')
      → (x ≡ t)
        × ((run_worker (true ∷ later ∷ []) q').tasks ≡ ts)
        × ((run_worker (true ∷ later ∷ []) q').attempts ≡ q.attempts ++ (t, true) ∷ [])
  unfolding pop run_worker worker_step
  pop-loses_next q q' t u x ts later w e p = ground arith
