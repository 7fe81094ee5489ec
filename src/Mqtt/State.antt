-- ===== src/Mqtt/State.antt =====
-- The state of `MqttService::Imp` (MqttService/MqttService.cpp), the calls that it makes and the
-- errors that it throws. A registered `std::function` is known by a number, and a call of it is an
-- event; so is a call of the Paho client library, whose answers are arguments of the operations.
use shapeware.Base.{ℕ, Bool, true, false, List, [], Option, none, some}
use shapeware.Base.Int.{ℤ, pos}
use shapeware.Text.{Text}
use shapeware.StdMap.{StdMap}

abbrev pub Handler : Type 0
Handler = ℕ

pub record ConnectionPars : Type 0 where
  pub broker_address : Text
  pub trust_store : Text
  pub certificate : Text
  pub private_key : Text
  pub user : Text
  pub password : Text
  pub enabled_ssl : Bool

pub record Settings : Type 0 where
  pub mqtt_broker_addr : Text
  pub mqtt_client_id : Text
  pub mqtt_persistence : ℤ
  pub mqtt_user : Text
  pub mqtt_password : Text
  pub mqtt_enabled_ssl : Bool
  pub mqtt_keep_alive_interval : ℤ
  pub mqtt_connect_timeout : ℤ
  pub mqtt_min_reconnect : ℤ
  pub mqtt_max_reconnect : ℤ
  pub buffered : Bool
  pub buffer_size : ℤ
  pub trust_store : Text
  pub key_store : Text
  pub private_key : Text
  pub private_key_password : Text
  pub enabled_cipher_suites : Text
  pub enable_server_cert_auth : Bool

-- What a subscription calls with its result: the function that was given, or the lambda of the
-- obsolete `subscribe(topic, qos)`.
pub data OnSubscribe : Type 0 where
  given : Handler → OnSubscribe
  obsolete : OnSubscribe

-- What a received message calls, likewise.
pub data OnMessage : Type 0 where
  given : Handler → OnMessage
  obsolete : OnMessage

-- What a publication calls: the function that was given, or a lambda that only writes a trace.
pub data OnPublish : Type 0 where
  given : Handler → OnPublish
  traced : OnPublish

pub record SubscribeContext : Type 0 where
  pub topic : Text
  pub qos : ℤ
  pub on_subscribe_hndl : OnSubscribe

pub record UnsubscribeContext : Type 0 where
  pub topic : Text
  pub on_unsubscribe_hndl : Handler

pub record PublishContext : Type 0 where
  pub topic : Text
  pub qos : ℤ
  pub msg : Text
  pub on_send_hndl : OnPublish
  pub on_delivery_hndl : OnPublish

-- `m_disconnect_promise_uptr`
pub data Promise : Type 0 where
  null : Promise
  waiting : Promise
  satisfied : Bool → Promise

pub record Service : Type 0 where
  pub settings : Settings
  pub mqtt_message_handler_func : Option Handler
  pub mqtt_message_str_handler_func : Option Handler
  pub mqtt_on_connect_handler_func : Option Handler
  pub mqtt_on_connect_failure_handler_func : Option Handler
  pub mqtt_on_subscribe_handler_func : Option Handler
  pub mqtt_on_disconnect_handler_func : Option Handler
  pub subscribe_context_map : StdMap ℤ SubscribeContext
  pub unsubscribe_context_map : StdMap ℤ UnsubscribeContext
  pub on_message_hndl_map : StdMap Text OnMessage
  pub publish_context_map : StdMap ℤ PublishContext
  pub client : Bool  -- `m_client` is not null
  pub connected : Bool
  pub disconnect_promise : Promise
  pub launch_service : Option Handler

pub record SslOptions : Type 0 where
  pub trust_store : Option Text
  pub key_store : Option Text
  pub private_key : Option Text
  pub private_key_password : Option Text
  pub enabled_cipher_suites : Option Text
  pub enable_server_cert_auth : Bool

pub record ConnectOptions : Type 0 where
  pub keep_alive_interval : ℤ
  pub clean_session : Bool
  pub connect_timeout : ℤ
  pub username : Text
  pub password : Text
  pub automatic_reconnect : Bool
  pub ssl : Option SslOptions

pub data Event : Type 0 where
  -- MQTTAsync_createWithOptions: address, client, persistence, sendWhileDisconnected,
  -- maxBufferedMessages
  paho_create : Text → Text → ℤ → Bool → ℤ → Event
  paho_set_connected : Event
  paho_set_callbacks : Bool → Event  -- with the callbacks, or with null pointers
  paho_connect : ConnectOptions → Event
  paho_disconnect : Event
  paho_destroy : Event
  paho_subscribe : Text → ℤ → Event
  paho_unsubscribe : Text → Event
  paho_send : Text → ℤ → Text → Event
  -- calls of the functions that the client of the service gave
  on_connect : Handler → Event
  on_connect_failure : Handler → ℤ → Text → Event
  on_disconnect : Handler → Event
  on_subscribe : Handler → Text → ℤ → Bool → Event
  on_subscribe_registered : Handler → Text → Bool → Event
  on_unsubscribe : Handler → Text → Bool → Event
  on_send : Handler → Text → ℤ → Bool → Event
  on_delivery : Handler → Text → ℤ → Bool → Event
  on_message : Handler → Text → Text → Event
  on_message_registered : Handler → Text → Text → Event
  on_message_str_registered : Handler → Text → Text → Event

pub data Error : Type 0 where
  already_created : Error
  create_failed : ℤ → Error
  set_connected_failed : Error
  set_callbacks_failed : ℤ → Error
  not_created : Error
  connect_failed : ℤ → Error
  subscribe_failed : ℤ → Error
  unsubscribe_failed : ℤ → Error
  promise_already_satisfied : Error  -- thrown by `std::promise::set_value`
  undefined_null : Error  -- a null pointer is followed
  undefined_filter : Error  -- a byte before an empty filter is read

-- The answer of a Paho call that returns a code.
pub data Return : Type 0 where
  success : Return
  failure : ℤ → Return

-- The answer of a Paho call that starts an exchange and sets `token`.
pub data Started : Type 0 where
  started : ℤ → Started
  refused : ℤ → Started

-- What an operation leaves, the calls that it made, oldest first, and what it threw.
pub record Outcome : Type 0 where
  pub service : Service
  pub events : List Event
  pub thrown : Option Error

abbrev pub returns : Service → List Event → Outcome
returns s es = record { service = s; events = es; thrown = none }

abbrev pub throws : Service → List Event → Error → Outcome
throws s es e = record { service = s; events = es; thrown = some e }

abbrev pub default_settings : Settings
default_settings = record {
  mqtt_broker_addr = [];
  mqtt_client_id = [];
  mqtt_persistence = pos 0;
  mqtt_user = [];
  mqtt_password = [];
  mqtt_enabled_ssl = false;
  mqtt_keep_alive_interval = pos 20;
  mqtt_connect_timeout = pos 5;
  mqtt_min_reconnect = pos 1;
  mqtt_max_reconnect = pos 64;
  buffered = false;
  buffer_size = pos 1024;
  trust_store = [];
  key_store = [];
  private_key = [];
  private_key_password = [];
  enabled_cipher_suites = [];
  enable_server_cert_auth = true;
}

-- The service as its constructor leaves it.
abbrev pub new : Service
new = record {
  settings = default_settings;
  mqtt_message_handler_func = none;
  mqtt_message_str_handler_func = none;
  mqtt_on_connect_handler_func = none;
  mqtt_on_connect_failure_handler_func = none;
  mqtt_on_subscribe_handler_func = none;
  mqtt_on_disconnect_handler_func = none;
  subscribe_context_map = [];
  unsubscribe_context_map = [];
  on_message_hndl_map = [];
  publish_context_map = [];
  client = false;
  connected = false;
  disconnect_promise = null;
  launch_service = none;
}
