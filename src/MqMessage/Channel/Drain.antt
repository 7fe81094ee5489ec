-- ===== src/MqMessage/Channel/Drain.antt =====
-- The worker writes what was sent, and opens the remote queue again after a failure
-- (MqMessageService/MqMessageService.cpp).
use shapeware.Base.{
  ◌≡◌, refl, sym, ap, ◌∙◌, List, append-nil, ◌≤◌, inl, inr, true, false, Bool, [], ◌∷◌, ◌++◌,
  Option, none, some, arith, ℕ, zero, suc, Option-cases, append_assoc, is_some, ◌&&◌,
}
use shapeware.Text.{Text}
use shapeware.TaskQueue.{TaskQueue, worker_step, run_worker as run_queue}
use shapeware.TaskQueue.Progress.{steps_left, worker_drains}
use shapeware.MqMessage.Service.{Service, closes, opens_write, writes, connect, send_to}
use shapeware.MqMessage.Laws.{written}
use shapeware.MqMessage.Channel.{Channel, started, worker_turn, run_worker, Reach}
use shapeware.TaskQueue.Delivery.{in_flight}
use shapeware.MqMessage.Channel.Open.{IsOpen, Reach-IsOpen, worker_turn-IsOpen, worker_turn-written}
use shapeware.MqMessage.Channel.Written.{worker_turn-tried, Reach-queue}

worker_turn-none :
    (opened : Option ℕ) (wrote : Bool) (c : Channel)
    → worker_turn opened wrote c ≡ none
    → worker_step c.to_mq_message_queue ≡ none
unfolding worker_turn
worker_turn-none opened wrote c h = ground arith

run_worker-run_queue :
    (fuel : ℕ) (answers : ℕ → Option ℕ × Bool) (c : Channel)
    → (run_worker fuel answers c).to_mq_message_queue ≡ run_queue fuel c.to_mq_message_queue
unfolding run_worker run_queue
run_worker-run_queue zero answers c = refl
run_worker-run_queue (suc fuel) answers c =
    let (opened, wrote) = answers fuel in
    elim (Option-cases (worker_turn opened wrote c)) [
      | inl e ↦ rw (e, worker_turn-none opened wrote c e, run_worker, run_queue) refl
      | inr (d, e) ↦
          rw (e, (worker_turn-tried opened wrote c d e).0, run_worker, run_queue)
            (run_worker-run_queue fuel answers d)
    ]

-- What remains to be written is what the worker has taken and what is in the queue.
abbrev remaining : TaskQueue Text → List Text
remaining q = in_flight q.worker ++ q.tasks

worker_step-remaining :
    (q q' : TaskQueue Text)
    → worker_step q ≡ some q'
    → q.run_worker_thread ≡ true
    → (remaining q ≡ in_flight q.worker ++ remaining q') × (q'.run_worker_thread ≡ true)
unfolding worker_step
worker_step-remaining q q' e run = ground arith

-- The worker neither loses nor adds a message when the system gives a handle and takes each write.
run_worker-remaining :
    (fuel : ℕ) (answers : ℕ → Option ℕ × Bool) (c : Channel)
    → ((n : ℕ) → (is_some (answers n).0 ≡ true) × ((answers n).1 ≡ true))
    → IsOpen c.service
    → c.to_mq_message_queue.run_worker_thread ≡ true
    → let d = run_worker fuel answers c in
      written d.service.events ++ remaining d.to_mq_message_queue
      ≡ written c.service.events ++ remaining c.to_mq_message_queue
unfolding run_worker
run_worker-remaining zero answers c good v run = refl
run_worker-remaining (suc fuel) answers c good v run =
    let (opened, wrote) = answers fuel in
    let q = c.to_mq_message_queue in
    elim (Option-cases (worker_turn opened wrote c)) [
      | inl e ↦ rw (e, run_worker) refl
      | inr (d, e) ↦
          let step = (worker_turn-tried opened wrote c d e).0 in
          let (same, run') = worker_step-remaining q d.to_mq_message_queue step run in
          let (o, w) = good fuel in
          rw (e, run_worker)
            (run_worker-remaining fuel answers d good (worker_turn-IsOpen opened wrote c d e v) run'
              ∙ ap (λ l. l ++ remaining d.to_mq_message_queue)
                  (worker_turn-written opened wrote c d e v o w)
              ∙ append_assoc (written c.service.events) (in_flight q.worker)
                  (remaining d.to_mq_message_queue)
              ∙ ap (λ l. written c.service.events ++ l) (sym same))
    ]

-- From every state that the clients and the threads can reach from the activation of a service, which
-- leaves it not connected, and in which the queue is not stopped: the worker alone, given `steps_left` steps or more, with a system
-- that gives a handle at each opening and takes each write, empties the queue, has processed every
-- message ever accepted, in the order of the calls of `sendMessage`, and has put into the remote
-- queue the message that it had taken, if any, and those that were in the queue, each once, in that
-- order, and nothing else.
pub send_message-written :
    (s : Service) {c : Channel} (fuel : ℕ) (answers : ℕ → Option ℕ × Bool)
    → s.connected ≡ false
    → Reach (started s) c
    → c.to_mq_message_queue.run_worker_thread ≡ true
    → steps_left c.to_mq_message_queue ≤ fuel
    → ((n : ℕ) → (is_some (answers n).0 ≡ true) × ((answers n).1 ≡ true))
    → let d = run_worker fuel answers c in
      let q = c.to_mq_message_queue in
      (d.to_mq_message_queue.tasks ≡ [])
      × (d.to_mq_message_queue.processed ≡ q.accepted)
      × (written d.service.events ≡ written c.service.events ++ (in_flight q.worker ++ q.tasks))
send_message-written s {c} fuel answers e r run h good =
    let (empty, waits, all) = worker_drains fuel (Reach-queue s r) run h in
    let same = run_worker-run_queue fuel answers c in
    let d = run_worker fuel answers c in
    let nothing_left : remaining d.to_mq_message_queue ≡ [] =
      ap remaining same ∙ ground (arith, waits, empty) in
    (
      ap (λ q. q.tasks) same ∙ empty,
      ap (λ q. q.processed) same ∙ all,
      sym (append-nil (written d.service.events))
          ∙ ap (λ l. written d.service.events ++ l) (sym nothing_left)
          ∙ run_worker-remaining fuel answers c good (Reach-IsOpen s e r) run,
    )

-- Where the service has a handle if it counts as connected: after a write that failed, the next
-- message closes the remote queue, opens it again and goes to the handle of this opening, and the
-- service then counts as connected exactly if the opening gave a handle and the write succeeded.
-- After a write that succeeded, with a handle from the system where the queue had to be opened, the
-- next message goes to the same handle, with nothing opened or closed, and the service then counts
-- as connected exactly if the write succeeded.
pub send_to-reopens :
    (opened opened' : Option ℕ) (h : ℕ) (wrote : Bool) (m m' : Text) (s : Service)
    → IsOpen s
    → let bad = send_to opened false m s in
      let good = send_to (some h) true m s in
      let after_bad = send_to opened' wrote m' bad in
      let after_good = send_to opened' wrote m' good in
      (after_bad.events
        ≡ bad.events
          ++ closes bad.remote_mq_handle
            ∷ opens_write s.remote_mq_name
            ∷ writes opened' m' (wrote && is_some opened')
            ∷ [])
      × (after_bad.connected ≡ (wrote && is_some opened'))
      × (after_good.events ≡ good.events ++ writes good.remote_mq_handle m' wrote ∷ [])
      × (after_good.connected ≡ wrote)
unfolding send_to connect
send_to-reopens opened opened' h wrote m m' s v =
    let b = connect opened s in
    ground (
      arith,
      append_assoc (b.events ++ writes b.remote_mq_handle m false ∷ [])
          (closes b.remote_mq_handle ∷ opens_write s.remote_mq_name ∷ [])
          (writes opened' m' (wrote && is_some opened') ∷ []),
    )
