-- ===== src/TaskQueue.antt =====
-- The task queue of the message service (MqMessageService/TaskQueue.h): producers push tasks, one
-- worker thread waits on a condition variable and hands the tasks to the processing function.
-- The mutex makes each critical section one step; `m_runWorkerThread` is read without the mutex
-- in the outer loop, which is the step at `testing`. `accepted` and `processed` record the pushes
-- and the calls of the processing function, oldest first; the program does not keep them.
pub mod Delivery
pub mod Progress
pub mod Tests
use shapeware.Base.{
  ℕ, zero, suc, ◌≡◌, Bool, true, false, List, [], ◌∷◌, ◌++◌, Option, none, some, length,
  if◌then◌else◌,
}

-- Where the worker stands in `worker()`.
pub data Worker {ℓ} (T : Type ℓ) : Type ℓ where
  testing : Worker T  -- at `while (m_runWorkerThread)` of the outer loop
  waiting : Worker T  -- in `m_conditionVariable.wait`
  processing : T → Worker T  -- before `m_processTaskFunc(task)`, unlocked
  relocking : Worker T  -- at `lck.lock()` for the next iteration of the inner loop
  exited : Worker T

pub record TaskQueue {ℓ} (T : Type ℓ) : Type ℓ where
  pub tasks : List T
  pub task_pushed : Bool
  pub run_worker_thread : Bool
  pub worker : Worker T
  pub accepted : List T
  pub processed : List T

module _ {ℓ} {T : Type ℓ} where
  unfoldable pub init : TaskQueue T
  init = record {
    tasks = [];
    task_pushed = false;
    run_worker_thread = true;
    worker = testing;
    accepted = [];
    processed = [];
  }

  -- The queue after the push, and the size that `pushToQueue` returns.
  unfoldable pub push_to_queue : T → TaskQueue T → TaskQueue T × ℕ
  push_to_queue t q =
      let ts = q.tasks ++ t ∷ [] in
      (record q { tasks = ts; task_pushed = true; accepted = q.accepted ++ t ∷ [] }, length ts)

  unfoldable pub stop_queue : TaskQueue T → TaskQueue T
  stop_queue q = record q { run_worker_thread = false; task_pushed = true }

  unfoldable pub size : TaskQueue T → ℕ
  size q = length q.tasks

  next_task : List T → TaskQueue T → TaskQueue T
  next_task [] q = record q { worker = testing }
  next_task (t ∷ ts) q = record q { tasks = ts; worker = processing t }

  -- One round of the inner loop, under the lock.
  inner_loop : TaskQueue T → TaskQueue T
  unfolding next_task
  inner_loop q = if q.run_worker_thread then next_task q.tasks q else record q { worker = testing }

  worker_at : Worker T → TaskQueue T → Option (TaskQueue T)
  unfolding inner_loop
  worker_at testing q = some (record q { worker = if q.run_worker_thread then waiting else exited })
  worker_at waiting q =
      if q.task_pushed then some (inner_loop (record q { task_pushed = false })) else none
  worker_at (processing t) q =
      some (record q { worker = relocking; processed = q.processed ++ t ∷ [] })
  worker_at relocking q = some (inner_loop q)
  worker_at exited q = none

  -- The next step of the worker thread; `none` where it is blocked or has returned.
  unfoldable pub worker_step : TaskQueue T → Option (TaskQueue T)
  unfolding worker_at
  worker_step q = worker_at q.worker q

  -- The worker alone, until it blocks, or for as many steps as the fuel has.
  unfoldable pub run_worker : ℕ → TaskQueue T → TaskQueue T
  run_worker zero q = q
  run_worker (suc fuel) q = elim (worker_step q) [ none ↦ q | some q' ↦ run_worker fuel q' ]

  -- What the threads of the program can do to a queue.
  pub data Step (q : TaskQueue T) : TaskQueue T → Type ℓ where
    pushes : (t : T) → Step q (push_to_queue t q).0
    stops : Step q (stop_queue q)
    works : {q' : TaskQueue T} → worker_step q ≡ some q' → Step q q'

  pub data Reach (q : TaskQueue T) : TaskQueue T → Type ℓ where
    here : Reach q q
    next : {r s : TaskQueue T} → Reach q r → Step r s → Reach q s
