-- ===== src/ZeroMq/State.antt =====
-- The state of `ZeroMqService::Imp` and what its clients do to it
-- (ZeroMqService/ZeroMqService.cpp). `accepted` and `events` record the messages that `sendMessage`
-- took and the calls that the worker made, oldest first; the program does not keep them.
use shapeware.Base.{
  ℕ, Bool, true, false, not, List, [], ◌∷◌, ◌++◌, Option, none, some, if◌then◌else◌,
}
use shapeware.Text.{Text}

abbrev pub Handler : Type 0
Handler = ℕ

-- Where the worker thread stands.
pub data Worker : Type 0 where
  testing : Worker  -- at `while (m_runThd)`, the mutex not held
  waiting_open : Worker  -- in `m_cvar.wait`, until the socket is to be open
  waiting_send : Worker  -- workerReq: in `m_cvar.wait`, until there is a request
  polling : Worker  -- workerRep: in `zmq::poll`, the mutex not held
  waiting_reply : Worker  -- workerRep: in `m_cvar.wait`, until there is a reply
  exited : Worker

pub data Event : Type 0 where
  sends : Text → Event
  on_message : Handler → Text → Event
  on_req_timeout : Handler → Event

pub record Service : Type 0 where
  pub socket_opened : Bool
  pub require_open : Bool  -- `m_requireSocketState` is `open`
  pub run_thd : Bool
  pub to_send : Bool  -- `m_sendMessage`
  pub message_to_send : Text
  pub on_message_func : Option Handler
  pub on_req_timeout_func : Option Handler
  pub worker : Worker
  pub accepted : List Text
  pub events : List Event

unfoldable pub new : Service
new = record {
  socket_opened = false;
  require_open = false;
  run_thd = true;
  to_send = false;
  message_to_send = [];
  on_message_func = none;
  on_req_timeout_func = none;
  worker = testing;
  accepted = [];
  events = [];
}

-- `sendMessage`; none where it throws.
unfoldable pub send_message : Text → Service → Option Service
send_message msg s =
    if s.require_open
    then some
        (record s { message_to_send = msg; to_send = true; accepted = s.accepted ++ msg ∷ [] })
    else none

-- `open` up to its wait, and whether it waits.
unfoldable pub begin_open : Service → Service × Bool
begin_open s =
    if s.require_open
    then (s, false)
    else (record s { socket_opened = false; require_open = true }, true)

-- Whether an `open` that waits can return.
unfoldable pub open_returns : Service → Bool
open_returns s = s.socket_opened

-- `close` up to its wait, and whether it waits.
unfoldable pub begin_close : Service → Service × Bool
begin_close s =
    if s.require_open
    then (record s { socket_opened = true; require_open = false }, true)
    else (s, false)

-- Whether a `close` that waits can return.
unfoldable pub close_returns : Service → Bool
close_returns s = not s.socket_opened

unfoldable pub is_open : Service → Bool
is_open s = s.require_open

-- `registerOnMessage` and `unregisterOnMessage`
unfoldable pub set_on_message : Option Handler → Service → Service
set_on_message h s = record s { on_message_func = h }

-- `registerOnReqTimeout` and `unregisterOnReqTimeout`
unfoldable pub set_on_req_timeout : Option Handler → Service → Service
set_on_req_timeout h s = record s { on_req_timeout_func = h }

-- `deactivate` before it joins the thread.
unfoldable pub deactivate : Service → Service
deactivate s = record s { run_thd = false }
