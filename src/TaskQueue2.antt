-- ===== src/TaskQueue2.antt =====
-- The task queue that retries (include/TaskQueue2.h): the worker keeps a task in the queue while it
-- is processed, and removes it when the processing function returns true. `wait_for` has no
-- predicate and a timeout of one second, so the worker can wake at any time. Each critical section
-- is one step. `accepted` and `attempts` record the pushes and the calls of the processing function
-- with their results, oldest first; the program does not keep them.
pub mod Retry
pub mod Drain
pub mod Race
pub mod Tests
use shapeware.Base.{
  ℕ, ◌≡◌, Bool, true, false, List, [], ◌∷◌, ◌++◌, Option, none, some, length, if◌then◌else◌,
}

-- Where the worker stands in `worker()`.
pub data Worker {ℓ} (T : Type ℓ) : Type ℓ where
  testing : Worker T  -- at `while (m_runWorkerThread)`
  waiting : Worker T  -- in `m_conditionVariable.wait_for`
  processing : T → Worker T  -- before `m_processTaskFunc(task)`, unlocked
  finishing : Bool → Worker T  -- after it, at `lck.lock()`, with its result
  exited : Worker T
  undefined : Worker T  -- `std::queue::pop` was called on an empty queue

pub record TaskQueue2 {ℓ} (T : Type ℓ) : Type ℓ where
  pub tasks : List T
  pub run_worker_thread : Bool
  pub worker : Worker T
  pub accepted : List T
  pub attempts : List (T × Bool)

module _ {ℓ} {T : Type ℓ} where
  unfoldable pub init : TaskQueue2 T
  init = record {
    tasks = [];
    run_worker_thread = true;
    worker = testing;
    accepted = [];
    attempts = [];
  }

  -- The queue after the push, and the size that `pushToQueue` returns.
  unfoldable pub push_to_queue : T → TaskQueue2 T → TaskQueue2 T × ℕ
  push_to_queue t q =
      let ts = q.tasks ++ t ∷ [] in
      (record q { tasks = ts; accepted = q.accepted ++ t ∷ [] }, length ts)

  -- The part of `stopQueue` before it joins the worker thread.
  unfoldable pub stop_queue : TaskQueue2 T → TaskQueue2 T
  stop_queue q = record q { run_worker_thread = false }

  unfoldable pub size : TaskQueue2 T → ℕ
  size q = length q.tasks

  pop_front : List T → TaskQueue2 T → Option (T × TaskQueue2 T)
  pop_front [] q = none
  pop_front (t ∷ ts) q = some (t, record q { tasks = ts })

  -- `none` where `front` and `pop` are called on an empty queue.
  unfoldable pub pop : TaskQueue2 T → Option (T × TaskQueue2 T)
  unfolding pop_front
  pop q = pop_front q.tasks q

  wake : List T → TaskQueue2 T → TaskQueue2 T
  wake [] q = record q { worker = testing }
  wake (t ∷ ts) q = record q { worker = processing t }

  remove_processed : List T → TaskQueue2 T → TaskQueue2 T
  remove_processed [] q = record q { worker = undefined }
  remove_processed (t ∷ ts) q = record q { tasks = ts; worker = testing }

  worker_at : Worker T → Bool → TaskQueue2 T → Option (TaskQueue2 T)
  unfolding wake remove_processed
  worker_at testing result q =
      some (record q { worker = if q.run_worker_thread then waiting else exited })
  worker_at waiting result q = some (wake q.tasks q)
  worker_at (processing t) result q =
      some (record q { worker = finishing result; attempts = q.attempts ++ (t, result) ∷ [] })
  worker_at (finishing processed) result q =
      some (if processed then remove_processed q.tasks q else record q { worker = testing })
  worker_at exited result q = none
  worker_at undefined result q = none

  -- The next step of the worker thread; `result` is what the processing function returns, where
  -- the step calls it. `none` where the thread has returned, or where nothing is defined.
  unfoldable pub worker_step : Bool → TaskQueue2 T → Option (TaskQueue2 T)
  unfolding worker_at
  worker_step result q = worker_at q.worker result q

  -- The worker alone, one step for each entry of the list.
  unfoldable pub run_worker : List Bool → TaskQueue2 T → TaskQueue2 T
  run_worker [] q = q
  run_worker (r ∷ rs) q = elim (worker_step r q) [ none ↦ q | some q' ↦ run_worker rs q' ]

  -- What the threads can do to a queue whose `pop` nobody calls, as in this repository.
  pub data Step (q : TaskQueue2 T) : TaskQueue2 T → Type ℓ where
    pushes : (t : T) → Step q (push_to_queue t q).0
    stops : Step q (stop_queue q)
    works : {q' : TaskQueue2 T} (result : Bool) → worker_step result q ≡ some q' → Step q q'

  pub data Reach (q : TaskQueue2 T) : TaskQueue2 T → Type ℓ where
    here : Reach q q
    next : {r s : TaskQueue2 T} → Reach q r → Step r s → Reach q s
