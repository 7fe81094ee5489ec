-- ===== src/TaskQueue2/Tests.antt =====
-- Runs of the task queue that retries (include/TaskQueue2.h).
use shapeware.Base.{ℕ, ◌≡◌, ◌≢◌, refl, true, List, [], ◌∷◌, ◌++◌}
use shapeware.TaskQueue2.{
  testing, undefined, TaskQueue2, init, push_to_queue, worker_step, run_worker, Reach, here, next,
  pushes, works,
}
use shapeware.TaskQueue2.Retry.{successes, pending, HoldsHead, retry_in_order}
use shapeware.TaskQueue2.Drain.{success_rounds, succeed_all, success-drains}

abbrev both_tasks : List ℕ
both_tasks = 7 ∷ 8 ∷ []

abbrev one_pushed : TaskQueue2 ℕ
one_pushed = (push_to_queue 7 init).0

abbrev two_pushed : TaskQueue2 ℕ
two_pushed = (push_to_queue 8 one_pushed).0

abbrev taken : TaskQueue2 ℕ
taken = run_worker (true ∷ true ∷ []) two_pushed

two_pushed-Reach : Reach init two_pushed
two_pushed-Reach = next (next here (pushes 7)) (pushes 8)

taken-Reach : Reach init taken
unfolding run_worker worker_step push_to_queue init
taken-Reach = next (next two_pushed-Reach (works true refl)) (works true refl)

retry_in_order_example :
    (taken.accepted ≡ successes taken.attempts ++ pending taken.worker taken.tasks)
    × HoldsHead taken.worker taken.tasks
    × (taken.worker ≢ undefined)
retry_in_order_example = retry_in_order taken-Reach

abbrev drained : TaskQueue2 ℕ
drained = run_worker (success_rounds both_tasks) two_pushed

success-drains_example :
    (drained.tasks ≡ [])
    × (drained.worker ≡ testing)
    × (drained.attempts ≡ two_pushed.attempts ++ succeed_all both_tasks)
unfolding push_to_queue init
success-drains_example = success-drains both_tasks two_pushed refl refl refl
