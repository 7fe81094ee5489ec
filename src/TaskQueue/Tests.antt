-- ===== src/TaskQueue/Tests.antt =====
-- Runs of the task queue (MqMessageService/TaskQueue.h).
use shapeware.Base.{ℕ, ◌≡◌, ◌⊎◌, refl, true, false, [], ◌∷◌, ◌++◌, arith}
use shapeware.TaskQueue.{
  waiting, exited, TaskQueue, init, push_to_queue, stop_queue, worker_step, run_worker, Reach, here,
  next, pushes, works,
}
use shapeware.TaskQueue.Delivery.{in_flight, accepted_in_order, blocked_only_if_idle}
use shapeware.TaskQueue.Progress.{worker_drains, stop_returns}

abbrev two_pushed : TaskQueue ℕ
two_pushed = (push_to_queue 8 (push_to_queue 7 init).0).0

abbrev taken : TaskQueue ℕ
taken = run_worker 2 two_pushed

abbrev idle : TaskQueue ℕ
idle = run_worker 1 init

two_pushed-Reach : Reach init two_pushed
two_pushed-Reach = next (next here (pushes 7)) (pushes 8)

taken-Reach : Reach init taken
unfolding run_worker worker_step push_to_queue init
taken-Reach = next (next two_pushed-Reach (works refl)) (works refl)

idle-Reach : Reach init idle
unfolding run_worker worker_step init
idle-Reach = next here (works refl)

push_sizes : ((push_to_queue 7 (init {T = ℕ})).1 ≡ 1) × ((push_to_queue 9 two_pushed).1 ≡ 3)
unfolding push_to_queue init
push_sizes = (refl, refl)

all_processed : (run_worker 9 two_pushed).processed ≡ 7 ∷ 8 ∷ []
unfolding run_worker worker_step push_to_queue init
all_processed = refl

accepted_in_order_example :
    taken.accepted ≡ taken.processed ++ (in_flight taken.worker ++ taken.tasks)
accepted_in_order_example = accepted_in_order taken-Reach

blocked_only_if_idle_example :
    ((idle.worker ≡ exited) × (idle.run_worker_thread ≡ false))
    ⊎ ((idle.worker ≡ waiting) × (idle.run_worker_thread ≡ true) × (idle.tasks ≡ []))
unfolding run_worker worker_step init
blocked_only_if_idle_example = blocked_only_if_idle idle-Reach refl

worker_drains_example :
    ((run_worker 9 taken).tasks ≡ [])
    × ((run_worker 9 taken).worker ≡ waiting)
    × ((run_worker 9 taken).processed ≡ taken.accepted)
unfolding run_worker worker_step push_to_queue init
worker_drains_example = worker_drains 9 taken-Reach refl (omega arith)

stop_returns_example :
    ((run_worker 3 (stop_queue taken)).worker ≡ exited)
    × ((run_worker 3 (stop_queue taken)).processed ≡ taken.processed ++ in_flight taken.worker)
    × ((run_worker 3 (stop_queue taken)).tasks ≡ taken.tasks)
stop_returns_example = stop_returns taken
