-- ===== src/ZeroMq/Worker.antt =====
-- The worker threads `workerReq` and `workerRep` (ZeroMqService/ZeroMqService.cpp), and the steps
-- of all threads. The ZeroMQ library answers by arguments.
use shapeware.Base.{
  ◌≡◌, Bool, true, false, not, ◌||◌, List, [], ◌∷◌, ◌++◌, Option, none, some, if◌then◌else◌,
}
use shapeware.Text.{Text}
use shapeware.ZeroMq.State.{
  Handler, Worker, testing, waiting_open, waiting_send, polling, waiting_reply, exited, Event,
  sends, on_message, on_req_timeout, Service, send_message, begin_open, begin_close, set_on_message,
  set_on_req_timeout, deactivate,
}

-- What the poll finds: nothing within its time, or something that `recv` gives or not.
pub data Received : Type 0 where
  nothing : Received
  received : Option Text → Received

-- What the library answers in one step.
pub record Answers : Type 0 where
  pub opens : Bool  -- creating and connecting or binding the socket does not throw
  pub exchange : Option Received  -- none where sending, polling or receiving throws
  pub closes : Bool  -- disconnecting or unbinding and closing does not throw

unfoldable pub call_if : Option Handler → (Handler → Event) → Service → Service
call_if none f s = s
call_if (some h) f s = record s { events = s.events ++ f h ∷ [] }

unfoldable pub hear : Option Text → Service → Service
unfolding call_if
hear none s = s
hear (some msg) s = call_if s.on_message_func (λ h. on_message h msg) s

-- The send of the message that waits.
unfoldable pub send_now : Service → Service
send_now s = record s { to_send = false; events = s.events ++ sends s.message_to_send ∷ [] }

-- The outer wait and the opening of the socket; `next` is where the inner loop starts.
unfoldable pub open_socket : Worker → Answers → Service → Option Service
open_socket next a s =
    if s.run_thd
    then (if s.require_open
        then some (
            if a.opens
            then record s { socket_opened = true; worker = next }
            else record s { worker = testing })
        else none)
    else some (record s { worker = exited })

-- The end of a round of the inner loop; an exception leaves `m_socketOpened` as it is.
unfoldable pub end_round : Bool → Worker → Answers → Service → Service
end_round reset next a s =
    if reset || (not s.require_open || not s.run_thd)
    then (if a.closes
        then record s { socket_opened = false; worker = testing }
        else record s { worker = testing })
    else record s { worker = next }

unfoldable pub req_received : Received → Answers → Service → Service
unfolding hear call_if end_round
req_received nothing a s =
    end_round true waiting_send a (call_if s.on_req_timeout_func on_req_timeout s)
req_received (received r) a s = end_round false waiting_send a (hear r s)

unfoldable pub req_round : Answers → Service → Service
unfolding req_received send_now end_round
req_round a s =
    if s.to_send
    then elim a.exchange [
      | none ↦ record (send_now s) { worker = testing }
      | some r ↦ req_received r a (send_now s)
    ]
    else end_round false waiting_send a s

unfoldable pub rep_received : Received → Answers → Service → Service
unfolding hear end_round
rep_received nothing a s = end_round false polling a s
rep_received (received r) a s = record (hear r s) { to_send = false; worker = waiting_reply }

unfoldable pub rep_polled : Answers → Service → Service
unfolding rep_received
rep_polled a s = elim a.exchange [
  | none ↦ record s { worker = testing }
  | some r ↦ rep_received r a s
]

unfoldable pub rep_reply : Answers → Service → Service
unfolding send_now end_round
rep_reply a s =
    if s.to_send
    then elim a.exchange [
      | none ↦ record (send_now s) { worker = testing }
      | some r ↦ end_round false polling a (send_now s)
    ]
    else end_round false polling a s

-- The condition of both inner waits.
woken : Service → Bool
woken s = s.to_send || (not s.require_open || not s.run_thd)

unfoldable pub worker_at : Bool → Worker → Answers → Service → Option Service
unfolding open_socket req_round rep_polled rep_reply woken
worker_at rep testing a s = some (record s { worker = if s.run_thd then waiting_open else exited })
worker_at rep waiting_open a s = open_socket (if rep then polling else waiting_send) a s
worker_at rep waiting_send a s = if woken s then some (req_round a s) else none
worker_at rep polling a s = some (rep_polled a s)
worker_at rep waiting_reply a s = if woken s then some (rep_reply a s) else none
worker_at rep exited a s = none

-- The next step of the worker, `workerRep` if the flag is set; none where it is blocked or has
-- returned.
unfoldable pub worker_step : Bool → Answers → Service → Option Service
unfolding worker_at
worker_step rep a s = worker_at rep s.worker a s

-- The worker alone, one step for each entry of the list.
unfoldable pub run_worker : Bool → List Answers → Service → Service
run_worker rep [] s = s
run_worker rep (a ∷ rest) s = elim (worker_step rep a s) [
  | none ↦ s
  | some s' ↦ run_worker rep rest s'
]

-- What the threads can do.
pub data Step (rep : Bool) (s : Service) : Service → Type 0 where
  sends_message : (msg : Text) {s' : Service} → send_message msg s ≡ some s' → Step rep s s'
  opens : Step rep s (begin_open s).0
  closes : Step rep s (begin_close s).0
  hears : (h : Option Handler) → Step rep s (set_on_message h s)
  times : (h : Option Handler) → Step rep s (set_on_req_timeout h s)
  stops : Step rep s (deactivate s)
  works : (a : Answers) {s' : Service} → worker_step rep a s ≡ some s' → Step rep s s'

pub data Reach (rep : Bool) (s : Service) : Service → Type 0 where
  here : Reach rep s s
  next : {t u : Service} → Reach rep s t → Step rep t u → Reach rep s u
