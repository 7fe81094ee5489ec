-- ===== src/MqMessage/Channel/Written.antt =====
-- `writeMq` is called with what `sendMessage` accepts (MqMessageService/MqMessageService.cpp).
use shapeware.Base.{
  ◌≡◌, refl, sym, ap, ◌∙◌, ◌⊎◌, inl, inr, Bool, List, [], ◌∷◌, ◌++◌, Option, none, some,
  append_assoc, append-nil, arith, ℕ, Option-cases,
}
use shapeware.Base.Sub.{Sub}
use shapeware.Text.{Text, codes}
use shapeware.TaskQueue.{
  Worker, testing, waiting, processing, relocking, exited, TaskQueue, init, push_to_queue,
  stop_queue, worker_step, pushes, stops, works as queue_works, Reach as QueueReach,
  here as queue_here, next as queue_next,
}
use shapeware.TaskQueue.Delivery.{in_flight, accepted_in_order}
use shapeware.MqMessage.Service.{Service, opens_read, closes, broken, call_handler, deactivate}
use shapeware.MqMessage.Laws.{
  tried, written, written-Sub-tried, tried-append, send_to-events, call_handler-events,
}
use shapeware.MqMessage.Channel.{
  opening, reading, finished, Channel, started, send_message, process, worker_turn, begin_read,
  listener_opens, listener_reads, shut_down, Step, sends, works, opens, reads, shuts_down, Reach,
  here, next,
}

-- The second list has the elements of the first, and the notice of a broken remote among them.
pub record IsNoted (messages all : List Text) : Type 0 where
  pub before : List Text
  pub after : List Text
  pub messages_split : messages ≡ before ++ after
  pub all_split : all ≡ before ++ codes "Remote broken" ∷ after

pub IsNoted-append :
    {ms all : List Text} (l : List Text) → IsNoted ms all → IsNoted (ms ++ l) (all ++ l)
IsNoted-append l n = record {
  before = n.before;
  after = n.after ++ l;
  messages_split = ap (λ x. x ++ l) n.messages_split ∙ append_assoc n.before n.after l;
  all_split =
      ap (λ x. x ++ l) n.all_split ∙ append_assoc n.before (codes "Remote broken" ∷ n.after) l;
}

-- What `writeMq` was called with of the messages: all of them, or also the notice, once the listening thread
-- is at its end.
abbrev pub IsTried : Channel → Type 0
IsTried c =
    (tried c.service.events ≡ c.to_mq_message_queue.processed)
    ⊎ (IsNoted c.to_mq_message_queue.processed (tried c.service.events) × (c.listener ≡ finished))

worker_step-processed :
    (q q' : TaskQueue Text)
    → worker_step q ≡ some q'
    → q'.processed ≡ q.processed ++ in_flight q.worker
unfolding worker_step
worker_step-processed q q' h = ground (arith, append-nil q.processed)

process-tried :
    (w : Worker Text) (opened : Option ℕ) (wrote : Bool) (s : Service)
    → tried (process w opened wrote s).events ≡ tried s.events ++ in_flight w
unfolding process
process-tried testing opened wrote s = sym (append-nil (tried s.events))
process-tried waiting opened wrote s = sym (append-nil (tried s.events))
process-tried (processing m) opened wrote s = (send_to-events opened wrote m s).0
process-tried relocking opened wrote s = sym (append-nil (tried s.events))
process-tried exited opened wrote s = sym (append-nil (tried s.events))

-- A step of the worker calls `writeMq` with what it processes.
pub worker_turn-tried :
    (opened : Option ℕ) (wrote : Bool) (c c' : Channel)
    → worker_turn opened wrote c ≡ some c'
    → (worker_step c.to_mq_message_queue ≡ some c'.to_mq_message_queue)
      × (c'.listener ≡ c.listener)
      × (c'.to_mq_message_queue.processed
          ≡ c.to_mq_message_queue.processed ++ in_flight c.to_mq_message_queue.worker)
      × (tried c'.service.events ≡ tried c.service.events ++ in_flight c.to_mq_message_queue.worker)
unfolding worker_turn
worker_turn-tried opened wrote c c' h = elim (Option-cases (worker_step c.to_mq_message_queue)) [
  | inl e ↦ ground (arith, e)
  | inr (q, e) ↦ ground (
    arith,
    e,
    worker_step-processed c.to_mq_message_queue q e,
    process-tried c.to_mq_message_queue.worker opened wrote c.service,
  )
]

works-IsTried :
    (opened : Option ℕ) (wrote : Bool) (c c' : Channel)
    → worker_turn opened wrote c ≡ some c'
    → IsTried c
    → IsTried c'
works-IsTried opened wrote c c' h (inl e) =
    inl (ground (arith, worker_turn-tried opened wrote c c' h))
works-IsTried opened wrote c c' h (inr (n, f)) =
    let (_, listens, ps, ws) = worker_turn-tried opened wrote c c' h in
    inr (rw (ps, ws) (IsNoted-append (in_flight c.to_mq_message_queue.worker) n), listens ∙ f)

opens-IsTried :
    (local : Option ℕ) (c : Channel)
    → c.listener ≡ opening
    → IsTried c
    → IsTried (listener_opens local c)
unfolding listener_opens begin_read
opens-IsTried local c o (inl e) =
    let es = opens_read c.service.local_mq_name ∷ [] in
    ground (arith, tried-append c.service.events es, append-nil (tried c.service.events))
opens-IsTried local c o (inr (n, f)) = absurd cc

call_handler-tried :
    (h : Option ℕ) (m : Text) (s : Service) → tried (call_handler h m s).events ≡ tried s.events
unfolding call_handler
call_handler-tried none m s = refl
call_handler-tried (some h) m s = (call_handler-events h m s).1

broken-tried :
    (opened : Option ℕ) (wrote : Bool) (s : Service)
    → tried (broken opened wrote s).events ≡ tried s.events ++ codes "Remote broken" ∷ []
unfolding broken
broken-tried opened wrote s = (send_to-events opened wrote (codes "Remote broken") s).0

reads-IsTried :
    (read : Option Text) (opened : Option ℕ) (wrote : Bool) (c : Channel)
    → c.listener ≡ reading
    → IsTried c
    → IsTried (listener_reads read opened wrote c)
unfolding listener_reads begin_read
reads-IsTried read opened wrote c o (inr (n, f)) = absurd cc
reads-IsTried (some m) opened wrote c o (inl e) =
    ground (arith, call_handler-tried c.service.message_handler_func m c.service)
reads-IsTried none opened wrote c o (inl e) = inr (
  record {
    before = c.to_mq_message_queue.processed;
    after = [];
    messages_split = sym (append-nil c.to_mq_message_queue.processed);
    all_split = broken-tried opened wrote c.service ∙ ap (λ l. l ++ codes "Remote broken" ∷ []) e;
  },
  refl,
)

shuts_down-IsTried : (c : Channel) → IsTried c → IsTried (shut_down c)
unfolding shut_down deactivate stop_queue
shuts_down-IsTried c h =
    let s = c.service in
    let es = closes s.remote_mq_handle ∷ closes s.local_mq_handle ∷ [] in
    let same = tried-append s.events es ∙ append-nil (tried s.events) in
    elim h [ inl e ↦ inl (same ∙ e) | inr (n, f) ↦ inr (rw same n, refl) ]

Step-IsTried : {c d : Channel} → Step c d → IsTried c → IsTried d
unfolding send_message push_to_queue
Step-IsTried (sends m) h = h
Step-IsTried {c} {d} (works opened wrote e) h = works-IsTried opened wrote c d e h
Step-IsTried {c} (opens local e) h = opens-IsTried local c e h
Step-IsTried {c} (reads read opened wrote e) h = reads-IsTried read opened wrote c e h
Step-IsTried {c} shuts_down h = shuts_down-IsTried c h

Reach-IsTried : {c d : Channel} → Reach c d → IsTried c → IsTried d
Reach-IsTried here h = h
Reach-IsTried (next r st) h = Step-IsTried st (Reach-IsTried r h)

begin_read-queue : (c : Channel) → (begin_read c).to_mq_message_queue ≡ c.to_mq_message_queue
unfolding begin_read
begin_read-queue c = ground arith

pub listener_opens-queue :
    (local : Option ℕ) (c : Channel)
    → (listener_opens local c).to_mq_message_queue ≡ c.to_mq_message_queue
unfolding listener_opens begin_read
listener_opens-queue local c = ground arith

pub listener_reads-queue :
    (read : Option Text) (opened : Option ℕ) (wrote : Bool) (c : Channel)
    → (listener_reads read opened wrote c).to_mq_message_queue ≡ c.to_mq_message_queue
unfolding listener_reads
listener_reads-queue none opened wrote c = refl
listener_reads-queue (some m) opened wrote c =
    begin_read-queue
      (record c { service = call_handler c.service.message_handler_func m c.service })

Step-queue :
    {c d : Channel}
    → QueueReach init c.to_mq_message_queue
    → Step c d
    → QueueReach init d.to_mq_message_queue
unfolding send_message shut_down
Step-queue r (sends m) = queue_next r (pushes m)
Step-queue {c} {d} r (works opened wrote e) =
    queue_next r (queue_works (worker_turn-tried opened wrote c d e).0)
Step-queue {c} r (opens local e) = rw (listener_opens-queue local c) r
Step-queue {c} r (reads read opened wrote e) = rw (listener_reads-queue read opened wrote c) r
Step-queue r shuts_down = queue_next r stops

module _ (s : Service) where
  pub Reach-queue : {c : Channel} → Reach (started s) c → QueueReach init c.to_mq_message_queue
  unfolding started
  Reach-queue here = queue_here
  Reach-queue (next r st) = Step-queue (Reach-queue r) st

  -- In every state that the clients and the threads can reach from the activation of a service that
  -- has tried no write, the messages accepted by `sendMessage` are, in that order, those processed,
  -- the one that the worker has taken, if any, and those in the queue; `writeMq` was called with
  -- those processed, each once and in that order, with at most one notice of a broken remote among
  -- them, which is there only once the listening thread has ended; and the messages that went into
  -- the remote queue are some of those that it was called with, in that order.
  pub accepted-tried :
      {c : Channel}
      → tried s.events ≡ []
      → Reach (started s) c
      → let q = c.to_mq_message_queue in
        (q.accepted ≡ q.processed ++ (in_flight q.worker ++ q.tasks))
        × IsTried c
        × Sub (written c.service.events) (tried c.service.events)
  unfolding started init
  accepted-tried {c} e r = (
    accepted_in_order (Reach-queue r),
    Reach-IsTried r (inl e),
    written-Sub-tried c.service.events,
  )
