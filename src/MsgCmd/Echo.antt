-- ===== src/MsgCmd/Echo.antt =====
-- MsgCmdEcho with the message service that it is attached to (examples/MsgCmdEcho/MsgCmdEcho.cpp):
-- the handler that it registers sends each message back, in the listening thread.
use shapeware.Base.{
  ℕ, ◌≡◌, refl, ◌∙◌, Bool, [], ◌∷◌, ◌++◌, Option, none, some, arith, append-nil, Option-cases, inl,
  inr,
}
use shapeware.Base.Sub.{Sub}
use shapeware.Text.{Text, codes}
use shapeware.TaskQueue.{
  Worker, testing, waiting, processing, relocking, exited, TaskQueue, init, push_to_queue,
  stop_queue, worker_step,
}
use shapeware.TaskQueue.Delivery.{in_flight}
use shapeware.MqMessage.Service.{
  Service, Handler, set_message_handler, send_to, connect, call_handler, broken, deactivate, closes,
  opens_read,
}
use shapeware.MqMessage.Laws.{
  heard, tried, written, heard-append, send_to-events, call_handler-events,
}
use shapeware.MqMessage.Channel.{
  Channel, reading, opening, started, send_message, worker_turn, begin_read, listener_opens,
  listener_reads, shut_down, sends, works, opens, reads, shuts_down, Reach, here, next, process,
}
use shapeware.MqMessage.Channel.Written.{IsTried, accepted-tried}

-- `activate` and `deactivate` of MsgCmdEcho, whose handler is known by the number `h`.
unfoldable pub activate : Handler → Service → Service
activate h s = set_message_handler (some h) s

unfoldable pub deactivate_echo : Service → Service
deactivate_echo s = set_message_handler none s

-- A read of the listening thread, where the registered handler is that of MsgCmdEcho.
unfoldable pub echoes : Option Text → Option ℕ → Bool → Channel → Channel
echoes none opened wrote c = listener_reads none opened wrote c
echoes (some msg) opened wrote c = send_message msg (listener_reads (some msg) opened wrote c)

-- What can happen to the message service of MsgCmdEcho, whose only client it is.
pub data EchoStep (c : Channel) : Channel → Type 0 where
  echo_works :
      (opened : Option ℕ) (wrote : Bool) {c' : Channel}
      → worker_turn opened wrote c ≡ some c'
      → EchoStep c c'
  echo_opens : (local : Option ℕ) → c.listener ≡ opening → EchoStep c (listener_opens local c)
  echo_reads :
      (read : Option Text) (opened : Option ℕ) (wrote : Bool)
      → c.listener ≡ reading
      → EchoStep c (echoes read opened wrote c)
  echo_shuts_down : EchoStep c (shut_down c)

pub data EchoReach (c : Channel) : Channel → Type 0 where
  echo_here : EchoReach c c
  echo_next : {d e : Channel} → EchoReach c d → EchoStep d e → EchoReach c e

EchoReach-Reach : {b c : Channel} → EchoReach b c → Reach b c
unfolding echoes
EchoReach-Reach echo_here = here
EchoReach-Reach (echo_next r (echo_works opened wrote e)) =
    next (EchoReach-Reach r) (works opened wrote e)
EchoReach-Reach (echo_next r (echo_opens local e)) = next (EchoReach-Reach r) (opens local e)
EchoReach-Reach (echo_next r (echo_reads none opened wrote e)) =
    next (EchoReach-Reach r) (reads none opened wrote e)
EchoReach-Reach (echo_next r (echo_reads (some m) opened wrote e)) =
    next (next (EchoReach-Reach r) (reads (some m) opened wrote e)) (sends m)
EchoReach-Reach (echo_next r echo_shuts_down) = next (EchoReach-Reach r) shuts_down

-- The handler is registered, and what was heard is what was sent.
abbrev pub IsEchoed : Handler → Channel → Type 0
IsEchoed h c =
    (c.service.message_handler_func ≡ some h)
    × (heard c.service.events ≡ c.to_mq_message_queue.accepted)

send_to-kept :
    (opened : Option ℕ) (wrote : Bool) (m : Text) (s : Service)
    → (send_to opened wrote m s).message_handler_func ≡ s.message_handler_func
unfolding send_to connect
send_to-kept opened wrote m s = ground arith

pub broken-kept :
    (opened : Option ℕ) (wrote : Bool) (s : Service)
    → (broken opened wrote s).message_handler_func ≡ s.message_handler_func
unfolding broken
broken-kept opened wrote s = send_to-kept opened wrote (codes "Remote broken") s

pub broken-heard :
    (opened : Option ℕ) (wrote : Bool) (s : Service)
    → heard (broken opened wrote s).events ≡ heard s.events
unfolding broken
broken-heard opened wrote s = (send_to-events opened wrote (codes "Remote broken") s).1

process-kept :
    (w : Worker Text) (opened : Option ℕ) (wrote : Bool) (s : Service)
    → ((process w opened wrote s).message_handler_func ≡ s.message_handler_func)
      × (heard (process w opened wrote s).events ≡ heard s.events)
unfolding process
process-kept testing opened wrote s = (refl, refl)
process-kept waiting opened wrote s = (refl, refl)
process-kept (processing m) opened wrote s =
    (send_to-kept opened wrote m s, (send_to-events opened wrote m s).1)
process-kept relocking opened wrote s = (refl, refl)
process-kept exited opened wrote s = (refl, refl)

worker_step-accepted : (q q' : TaskQueue Text) → worker_step q ≡ some q' → q'.accepted ≡ q.accepted
unfolding worker_step
worker_step-accepted q q' e = ground arith

-- A step of the worker: the queue accepts nothing, and no message is heard.
pub works-kept :
    (opened : Option ℕ) (wrote : Bool) (c d : Channel)
    → worker_turn opened wrote c ≡ some d
    → (d.service.message_handler_func ≡ c.service.message_handler_func)
      × (heard d.service.events ≡ heard c.service.events)
      × (d.to_mq_message_queue.accepted ≡ c.to_mq_message_queue.accepted)
unfolding worker_turn
works-kept opened wrote c d e =
    let q = c.to_mq_message_queue in
    elim (Option-cases (worker_step q)) [
      | inl x ↦ ground (arith, x)
      | inr (q', x) ↦
          ground
            (arith, x, worker_step-accepted q q' x, process-kept q.worker opened wrote c.service)
    ]

works-IsEchoed :
    (h : Handler) (opened : Option ℕ) (wrote : Bool) (c d : Channel)
    → worker_turn opened wrote c ≡ some d
    → IsEchoed h c
    → IsEchoed h d
works-IsEchoed h opened wrote c d e v = ground (arith, works-kept opened wrote c d e)

begin_read-IsEchoed : (h : Handler) (c : Channel) → IsEchoed h c → IsEchoed h (begin_read c)
unfolding begin_read
begin_read-IsEchoed h c v = ground arith

opens-IsEchoed :
    (h : Handler) (local : Option ℕ) (c : Channel)
    → IsEchoed h c
    → IsEchoed h (listener_opens local c)
unfolding listener_opens begin_read
opens-IsEchoed h local c v =
    let es = opens_read c.service.local_mq_name ∷ [] in
    ground (arith, heard-append c.service.events es, append-nil (heard c.service.events))

echoes-IsEchoed :
    (h : Handler) (read : Option Text) (opened : Option ℕ) (wrote : Bool) (c : Channel)
    → IsEchoed h c
    → IsEchoed h (echoes read opened wrote c)
unfolding echoes listener_reads begin_read call_handler send_message push_to_queue
echoes-IsEchoed h none opened wrote c v =
    ground (arith, broken-kept opened wrote c.service, broken-heard opened wrote c.service)
echoes-IsEchoed h (some m) opened wrote c v = ground (arith, call_handler-events h m c.service)

shuts_down-IsEchoed : (h : Handler) (c : Channel) → IsEchoed h c → IsEchoed h (shut_down c)
unfolding shut_down deactivate stop_queue
shuts_down-IsEchoed h c v =
    let s = c.service in
    let es = closes s.remote_mq_handle ∷ closes s.local_mq_handle ∷ [] in
    ground (arith, heard-append s.events es, append-nil (heard s.events))

EchoReach-IsEchoed : (h : Handler) {b c : Channel} → EchoReach b c → IsEchoed h b → IsEchoed h c
EchoReach-IsEchoed h echo_here v = v
EchoReach-IsEchoed h (echo_next {d} {e} r (echo_works opened wrote x)) v =
    works-IsEchoed h opened wrote d e x (EchoReach-IsEchoed h r v)
EchoReach-IsEchoed h (echo_next {d} r (echo_opens local x)) v =
    opens-IsEchoed h local d (EchoReach-IsEchoed h r v)
EchoReach-IsEchoed h (echo_next {d} r (echo_reads read opened wrote x)) v =
    echoes-IsEchoed h read opened wrote d (EchoReach-IsEchoed h r v)
EchoReach-IsEchoed h (echo_next {d} r echo_shuts_down) v =
    shuts_down-IsEchoed h d (EchoReach-IsEchoed h r v)

-- In every state that the message service of MsgCmdEcho can reach, with its handler registered, from
-- the activation with nothing heard and no write tried: the messages heard are, in that order, those
-- processed, the one that the worker has taken, if any, and those in the queue; `writeMq` was called
-- with those processed, each once and in that order, with at most one notice of a broken remote
-- among them; and the messages that went into the remote queue are some of those that it was called
-- with, in that order. So each message is tried at most once and no echo overtakes another.
pub echo-in_order :
    (h : Handler) (s : Service) {c : Channel}
    → heard s.events ≡ []
    → tried s.events ≡ []
    → EchoReach (started (activate h s)) c
    → let q = c.to_mq_message_queue in
      (heard c.service.events ≡ q.processed ++ (in_flight q.worker ++ q.tasks))
      × IsTried c
      × Sub (written c.service.events) (tried c.service.events)
unfolding activate started init set_message_handler
echo-in_order h s eh ew r =
    let (accepted, notes, gone) = accepted-tried (activate h s) ew (EchoReach-Reach r) in
    ((EchoReach-IsEchoed h r (refl, eh)).1 ∙ accepted, notes, gone)
