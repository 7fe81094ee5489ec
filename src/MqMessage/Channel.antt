-- ===== src/MqMessage/Channel.antt =====
-- The message service as its clients meet it (MqMessageService/MqMessageService.cpp): the service,
-- the task queue that `sendMessage` pushes to, and the two threads, the worker of the queue and the
-- listening thread. One step is a critical section of the queue, a `sendTo`, an opening or a read.
pub mod Written
pub mod Listening
pub mod Open
pub mod Drain
use shapeware.Base.{
  ℕ, zero, suc, ◌≡◌, Bool, true, false, List, [], ◌∷◌, ◌++◌, Option, none, some, if◌then◌else◌,
  is_some,
}
use shapeware.Text.{Text}
use shapeware.TaskQueue.{
  Worker, testing, waiting, processing, relocking, exited, TaskQueue, init, push_to_queue,
  stop_queue, worker_step,
}
use shapeware.MqMessage.Service.{Service, opens_read, call_handler, broken, send_to, deactivate}

-- Where the listening thread stands in `listen`.
pub data Listener : Type 0 where
  opening : Listener  -- at the test of the outer loop, before `openMqRead`
  reading : Listener  -- in `readMq`
  finished : Listener

pub record Channel : Type 0 where
  pub service : Service
  pub to_mq_message_queue : TaskQueue Text
  pub listener : Listener

-- What `activate` leaves: a new queue, and a listening thread that starts.
unfoldable pub started : Service → Channel
started s = record { service = s; to_mq_message_queue = init; listener = opening }

unfoldable pub send_message : Text → Channel → Channel
send_message msg c = record c { to_mq_message_queue = (push_to_queue msg c.to_mq_message_queue).0 }

-- What the worker does to the service with its step: the function that `activate` gives to the queue
-- calls `sendTo`.
unfoldable pub process : Worker Text → Option ℕ → Bool → Service → Service
process (processing msg) opened wrote s = send_to opened wrote msg s
process _ opened wrote s = s

unfoldable pub worker_turn : Option ℕ → Bool → Channel → Option Channel
unfolding process
worker_turn opened wrote c = elim (worker_step c.to_mq_message_queue) [
  | none ↦ none
  | some q ↦ some (record c {
    to_mq_message_queue = q;
    service = process c.to_mq_message_queue.worker opened wrote c.service;
  })
]

-- The worker alone, for as many steps as the fuel has; `answers` has what the system answers in
-- each.
unfoldable pub run_worker : ℕ → (ℕ → Option ℕ × Bool) → Channel → Channel
run_worker zero answers c = c
run_worker (suc fuel) answers c = elim (worker_turn (answers fuel).0 (answers fuel).1 c) [
  | none ↦ c
  | some c' ↦ run_worker fuel answers c'
]

-- The listening thread up to its next read, or to its end.
unfoldable pub begin_read : Channel → Channel
begin_read c =
    if c.service.run_listen_thread
    then record c { service = record c.service { state = true }; listener = reading }
    else record c { service = record c.service { state = false }; listener = finished }

-- The listening thread from its start; `local` is the handle that the system gives.
unfoldable pub listener_opens : Option ℕ → Channel → Channel
unfolding begin_read
listener_opens local c =
    let s = record c.service {
      local_mq_handle = local;
      events = c.service.events ++ opens_read c.service.local_mq_name ∷ [];
    } in
    if c.service.run_listen_thread
    then (if is_some local then begin_read (record c { service = s }) else record c {
      service = record s { run_listen_thread = false; state = false };
      listener = finished;
    })
    else record c { service = record c.service { state = false }; listener = finished }

-- The listening thread from one read to the next.
unfoldable pub listener_reads : Option Text → Option ℕ → Bool → Channel → Channel
unfolding begin_read
listener_reads none opened wrote c = record c {
  service = broken opened wrote c.service;
  listener = finished;
}
listener_reads (some msg) opened wrote c =
    begin_read (record c { service = call_handler c.service.message_handler_func msg c.service })

-- `deactivate`: the listening thread is cancelled, and the destructor of the queue stops it.
unfoldable pub shut_down : Channel → Channel
shut_down c = record c {
  service = deactivate c.service;
  to_mq_message_queue = stop_queue c.to_mq_message_queue;
  listener = finished;
}

-- What the clients and the threads can do.
pub data Step (c : Channel) : Channel → Type 0 where
  sends : (msg : Text) → Step c (send_message msg c)
  works :
      (opened : Option ℕ) (wrote : Bool) {c' : Channel}
      → worker_turn opened wrote c ≡ some c'
      → Step c c'
  opens : (local : Option ℕ) → c.listener ≡ opening → Step c (listener_opens local c)
  reads :
      (read : Option Text) (opened : Option ℕ) (wrote : Bool)
      → c.listener ≡ reading
      → Step c (listener_reads read opened wrote c)
  shuts_down : Step c (shut_down c)

pub data Reach (c : Channel) : Channel → Type 0 where
  here : Reach c c
  next : {d e : Channel} → Reach c d → Step d e → Reach c e
