-- ===== src/MqMessage/Service.antt =====
-- The state and the operations of `MqMessageService::Imp` (MqMessageService/MqMessageService.cpp), as
-- it is built for POSIX message queues. The calls of the system are events, its answers arguments;
-- handles are numbers, and none is INVALID_HANDLE_VALUE.
use shapeware.Base.{
  ℕ, Bool, true, false, List, [], ◌∷◌, ◌++◌, Option, none, some, if◌then◌else◌, is_some, ◌&&◌,
}
use shapeware.Text.{Text, codes}
use shapeware.StdMap.Laws.{or_value}
use shapeware.Properties.{Properties}

abbrev pub Handler : Type 0
Handler = ℕ

pub data Event : Type 0 where
  opens_read : Text → Event
  opens_write : Text → Event
  closes : Option ℕ → Event
  writes : Option ℕ → Text → Bool → Event  -- and whether the message went into the queue
  calls_handler : Handler → Text → Event

pub record Service : Type 0 where
  pub local_mq_name : Text
  pub remote_mq_name : Text
  pub message_handler_func : Option Handler
  pub connected : Bool
  pub run_listen_thread : Bool
  pub state : Bool
  pub local_mq_handle : Option ℕ
  pub remote_mq_handle : Option ℕ
  pub events : List Event

abbrev pub new : Service
new = record {
  local_mq_name = codes "iqrf-daemon-100";
  remote_mq_name = codes "iqrf-daemon-110";
  message_handler_func = none;
  connected = false;
  run_listen_thread = true;
  state = false;
  local_mq_handle = none;
  remote_mq_handle = none;
  events = [];
}

unfoldable pub is_ready : Service → Bool
is_ready s = s.state

-- `registerMessageHandler` and `unregisterMessageHandler`
unfoldable pub set_message_handler : Option Handler → Service → Service
set_message_handler h s = record s { message_handler_func = h }

-- `activate` before it starts its two threads.
unfoldable pub activate : Properties → Service → Service
activate props s = record s {
  local_mq_name =
      codes "/" ++ or_value (props.member_as_string (codes "LocalMqName")) s.local_mq_name;
  remote_mq_name =
      codes "/" ++ or_value (props.member_as_string (codes "RemoteMqName")) s.remote_mq_name;
  connected = false;
}

-- `deactivate` but for its joins and deletes. The listening thread is cancelled at its read, without
-- the end of `listen`.
unfoldable pub deactivate : Service → Service
deactivate s = record s {
  run_listen_thread = false;
  events = s.events ++ closes s.remote_mq_handle ∷ closes s.local_mq_handle ∷ [];
}

unfoldable pub connect : Option ℕ → Service → Service
connect opened s = if s.connected then s else record s {
  remote_mq_handle = opened;
  connected = is_some opened;
  events = s.events ++ closes s.remote_mq_handle ∷ opens_write s.remote_mq_name ∷ [];
}

-- Whether a message goes into the remote queue: the handle of `connect` is one, and the system takes
-- the write, which `wrote` says.
abbrev pub goes_out : Option ℕ → Bool → Service → Bool
goes_out opened wrote s = wrote && is_some (if s.connected then s.remote_mq_handle else opened)

unfoldable pub send_to : Option ℕ → Bool → Text → Service → Service
unfolding connect
send_to opened wrote message s =
    let c = connect opened s in
    record c {
      connected = if goes_out opened wrote s then c.connected else false;
      events = c.events ++ writes c.remote_mq_handle message (goes_out opened wrote s) ∷ [];
    }

unfoldable pub call_handler : Option Handler → Text → Service → Service
call_handler none message s = s
call_handler (some h) message s = record s { events = s.events ++ calls_handler h message ∷ [] }

-- The end of `listen` when a read fails; `m_server` is never set, so that it tells the other side
-- and throws an exception, which it catches itself.
unfoldable pub broken : Option ℕ → Bool → Service → Service
unfolding send_to
broken opened wrote s = record (send_to opened wrote (codes "Remote broken") s) {
  run_listen_thread = false;
  state = false;
}

-- The loop for reading, over what the reads bring: a message, or none where a read fails or brings
-- no bytes. At the end of the list the thread waits in the next read.
unfoldable pub read_loop : List (Option Text) → Option ℕ → Bool → Service → Service
unfolding call_handler broken
read_loop [] opened wrote s = record s { state = s.run_listen_thread }
read_loop (none ∷ reads) opened wrote s =
    if s.run_listen_thread then broken opened wrote s else record s { state = false }
read_loop (some message ∷ reads) opened wrote s =
    let rest =
      read_loop reads opened wrote
        (call_handler s.message_handler_func message (record s { state = true })) in
    if s.run_listen_thread then rest else record s { state = false }

-- The thread `listen`; `local` is the handle for reading that the system gives.
unfoldable pub listen : Option ℕ → List (Option Text) → Option ℕ → Bool → Service → Service
unfolding read_loop
listen local reads opened wrote s =
    let s' = record s {
      local_mq_handle = local;
      events = s.events ++ opens_read s.local_mq_name ∷ [];
    } in
    let loop = read_loop reads opened wrote s' in
    if s.run_listen_thread
    then (if is_some local then loop else record s' { run_listen_thread = false; state = false })
    else record s { state = false }
