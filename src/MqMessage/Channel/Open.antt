-- ===== src/MqMessage/Channel/Open.antt =====
-- A message service that counts as connected has a handle for writing
-- (MqMessageService/MqMessageService.cpp).
use shapeware.Base.{
  ℕ, ◌≡◌, Bool, true, false, [], ◌++◌, Option, none, some, arith, if◌then◌else◌, is_some,
  Option-cases, inl, inr, append-nil,
}
use shapeware.Text.{Text, codes}
use shapeware.TaskQueue.{Worker, testing, waiting, processing, relocking, exited, worker_step}
use shapeware.TaskQueue.Delivery.{in_flight}
use shapeware.MqMessage.Service.{
  Service, goes_out, connect, send_to, call_handler, broken, deactivate,
}
use shapeware.MqMessage.Laws.{written, send_to-events}
use shapeware.MqMessage.Channel.{
  Channel, started, send_message, process, worker_turn, begin_read, listener_opens, listener_reads,
  shut_down, Step, sends, works, opens, reads, shuts_down, Reach, here, next,
}

abbrev pub IsOpen : Service → Type 0
IsOpen s = (if s.connected then is_some s.remote_mq_handle else true) ≡ true

send_to-IsOpen :
    (opened : Option ℕ) (wrote : Bool) (m : Text) (s : Service)
    → IsOpen s
    → IsOpen (send_to opened wrote m s)
unfolding send_to connect
send_to-IsOpen opened wrote m s v = ground arith

process-IsOpen :
    (w : Worker Text) (opened : Option ℕ) (wrote : Bool) (s : Service)
    → IsOpen s
    → IsOpen (process w opened wrote s)
unfolding process
process-IsOpen (processing m) opened wrote s v = send_to-IsOpen opened wrote m s v
process-IsOpen testing opened wrote s v = v
process-IsOpen waiting opened wrote s v = v
process-IsOpen relocking opened wrote s v = v
process-IsOpen exited opened wrote s v = v

pub worker_turn-IsOpen :
    (opened : Option ℕ) (wrote : Bool) (c d : Channel)
    → worker_turn opened wrote c ≡ some d
    → IsOpen c.service
    → IsOpen d.service
unfolding worker_turn
worker_turn-IsOpen opened wrote c d e v = elim (Option-cases (worker_step c.to_mq_message_queue)) [
  | inl x ↦ ground (arith, x)
  | inr (q, x) ↦
      ground (arith, x, process-IsOpen c.to_mq_message_queue.worker opened wrote c.service v)
]

broken-IsOpen :
    (opened : Option ℕ) (wrote : Bool) (s : Service) → IsOpen s → IsOpen (broken opened wrote s)
unfolding broken
broken-IsOpen opened wrote s v = send_to-IsOpen opened wrote (codes "Remote broken") s v

Step-IsOpen : {c d : Channel} → Step c d → IsOpen c.service → IsOpen d.service
unfolding send_message listener_opens listener_reads begin_read call_handler shut_down deactivate
Step-IsOpen (sends m) v = v
Step-IsOpen {c} {d} (works opened wrote e) v = worker_turn-IsOpen opened wrote c d e v
Step-IsOpen {c} (opens local e) v = ground arith
Step-IsOpen {c} (reads none opened wrote e) v = broken-IsOpen opened wrote c.service v
Step-IsOpen {c} (reads (some m) opened wrote e) v = ground arith
Step-IsOpen shuts_down v = v

-- From the activation, a service that counts as connected has a handle for writing.
pub Reach-IsOpen :
    (s : Service) {c : Channel} → s.connected ≡ false → Reach (started s) c → IsOpen c.service
unfolding started
Reach-IsOpen s e here = ground arith
Reach-IsOpen s e (next r st) = Step-IsOpen st (Reach-IsOpen s e r)

process-written :
    (w : Worker Text) (opened : Option ℕ) (wrote : Bool) (s : Service)
    → written (process w opened wrote s).events
      ≡ written s.events ++ (if goes_out opened wrote s then in_flight w else [])
unfolding process
process-written (processing m) opened wrote s = (send_to-events opened wrote m s).2
process-written testing opened wrote s = ground (arith, append-nil (written s.events))
process-written waiting opened wrote s = ground (arith, append-nil (written s.events))
process-written relocking opened wrote s = ground (arith, append-nil (written s.events))
process-written exited opened wrote s = ground (arith, append-nil (written s.events))

-- A step of the worker puts the message that the worker has taken into the remote queue, if it goes
-- out.
pub worker_turn-goes_out :
    (opened : Option ℕ) (wrote : Bool) (c d : Channel)
    → worker_turn opened wrote c ≡ some d
    → written d.service.events
      ≡ written c.service.events
        ++ (if goes_out opened wrote c.service then in_flight c.to_mq_message_queue.worker else [])
unfolding worker_turn
worker_turn-goes_out opened wrote c d e = elim (Option-cases (worker_step c.to_mq_message_queue)) [
  | inl x ↦ ground (arith, x)
  | inr (q, x) ↦
      ground (arith, x, process-written c.to_mq_message_queue.worker opened wrote c.service)
]

-- It does so where the system gives a handle and takes the write.
pub worker_turn-written :
    (opened : Option ℕ) (wrote : Bool) (c d : Channel)
    → worker_turn opened wrote c ≡ some d
    → IsOpen c.service
    → is_some opened ≡ true
    → wrote ≡ true
    → written d.service.events ≡ written c.service.events ++ in_flight c.to_mq_message_queue.worker
worker_turn-written opened wrote c d e v o w =
    let out : goes_out opened wrote c.service ≡ true = ground arith in
    ground (arith, worker_turn-goes_out opened wrote c d e)
