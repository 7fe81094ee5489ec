-- ===== src/WebsocketClient.antt =====
-- The websocket client (WebsocketCppClientService/WebsocketCppClientService.cpp). A call of
-- websocketpp is an event, and its answers are arguments; a connection handle is a number, and a
-- registered function likewise. An error code of `send`, `ping` and `close` is only traced. What is
-- done with `m_connectedMux` held is one step.
mod Tests
use shapeware.Base.{ℕ, Bool, true, false, List, [], ◌∷◌, ◌++◌, Option, none, some, if◌then◌else◌}
use shapeware.Text.{Text, codes}

abbrev pub Handler : Type 0
Handler = ℕ

abbrev pub ConnectionHdl : Type 0
ConnectionHdl = ℕ

pub data Event : Type 0 where
  ws_connect : ConnectionHdl → Event
  ws_send : Option ConnectionHdl → Text → Event
  ws_ping : Option ConnectionHdl → Text → Event
  ws_close : Option ConnectionHdl → Event
  ws_stop_perpetual : Event
  opened closed : Handler → Event
  message message_str : Handler → Text → Event

pub record Client : Type 0 where
  pub connection_hdl : Option ConnectionHdl
  pub uri : Text
  pub server : Text
  pub error_reason : Text
  pub connected : Bool
  pub message_handler_func : Option Handler
  pub message_str_handler_func : Option Handler
  pub open_handler_func : Option Handler
  pub close_handler_func : Option Handler
  pub events : List Event

abbrev pub new : Client
new = record {
  connection_hdl = none;
  uri = [];
  server = [];
  error_reason = [];
  connected = false;
  message_handler_func = none;
  message_str_handler_func = none;
  open_handler_func = none;
  close_handler_func = none;
  events = [];
}

abbrev pub log : Event → Client → Client
log e c = record c { events = c.events ++ e ∷ [] }

unfoldable pub call_if : Option Handler → (Handler → Event) → Client → Client
call_if none f c = c
call_if (some h) f c = log (f h) c

-- Callbacks of websocketpp

-- `server` is the header of the response.
unfoldable pub on_open : ConnectionHdl → Text → Client → Client
unfolding call_if
on_open hdl server c =
    call_if c.open_handler_func opened
      (record c { connection_hdl = some hdl; connected = true; server = server })

-- First the text, then the bytes.
unfoldable pub on_message : Text → Client → Client
unfolding call_if
on_message payload c =
    call_if c.message_handler_func (λ h. message h payload)
      (call_if c.message_str_handler_func (λ h. message_str h payload) c)

unfoldable pub on_fail : Text → Text → Client → Client
on_fail server reason c = record c { connected = false; server = server; error_reason = reason }

-- The code, its description and the reason that the other side gave.
unfoldable pub on_close : Text → Text → Text → Client → Client
unfolding call_if
on_close code status reason c = call_if c.close_handler_func closed (record c {
  connected = false;
  error_reason =
      codes "close code: "
      ++ (code ++ (codes " (" ++ (status ++ (codes "), close reason: " ++ reason))));
})

-- Requests

unfoldable pub send_message : Text → Client → Client
send_message msg c = log (ws_send c.connection_hdl msg) c

unfoldable pub send_ping : Client → Client
send_ping c = log (ws_ping c.connection_hdl (codes "ping")) c

-- `connect` up to its wait; `con` is the answer of `get_connection`, none where it is an error.
unfoldable pub connect : Text → Option ConnectionHdl → Client → Client
connect uri con c = if c.connected then c else elim con [
  | none ↦ record c { uri = uri }
  | some k ↦ log (ws_connect k) (record c { uri = uri })
]

unfoldable pub close : Client → Client
close c = record (log (ws_close c.connection_hdl) c) { connected = false }

unfoldable pub is_connected : Client → Bool
is_connected c = c.connected

-- `deactivate`, up to the join of the thread.
unfoldable pub deactivate : Client → Client
unfolding close
deactivate c = close (log ws_stop_perpetual c)

-- The registration of a function, or its removal.

unfoldable pub set_message_handler : Option Handler → Client → Client
set_message_handler h c = record c { message_handler_func = h }

unfoldable pub set_message_str_handler : Option Handler → Client → Client
set_message_str_handler h c = record c { message_str_handler_func = h }

unfoldable pub set_open_handler : Option Handler → Client → Client
set_open_handler h c = record c { open_handler_func = h }

unfoldable pub set_close_handler : Option Handler → Client → Client
set_close_handler h c = record c { close_handler_func = h }

pub data Call : Type 0 where
  opens : ConnectionHdl → Text → Call
  hears : Text → Call
  fails : Text → Text → Call
  closes_remote : Text → Text → Text → Call
  sends : Text → Call
  pings closes deactivates : Call
  connects : Text → Option ConnectionHdl → Call
  sets_message sets_message_str sets_open sets_close : Option Handler → Call

unfoldable pub perform : Call → Client → Client
unfolding on_open on_message on_fail on_close send_message send_ping connect close deactivate
    set_message_handler set_message_str_handler set_open_handler set_close_handler
perform (opens hdl server) c = on_open hdl server c
perform (hears payload) c = on_message payload c
perform (fails server reason) c = on_fail server reason c
perform (closes_remote code status reason) c = on_close code status reason c
perform (sends msg) c = send_message msg c
perform pings c = send_ping c
perform closes c = close c
perform deactivates c = deactivate c
perform (connects uri con) c = connect uri con c
perform (sets_message h) c = set_message_handler h c
perform (sets_message_str h) c = set_message_str_handler h c
perform (sets_open h) c = set_open_handler h c
perform (sets_close h) c = set_close_handler h c

unfoldable pub run : List Call → Client → Client
unfolding perform
run [] c = c
run (x ∷ xs) c = run xs (perform x c)
