-- ===== src/Websocket/State.antt =====
-- The state of `WebsocketCppService::Imp` (WebsocketCppService/WebsocketCppService.cpp) and the
-- calls that it makes. A `connection_hdl` of the websocketpp library is of any type with an order.
-- A registered function is known by a number.
use shapeware.Base.{ℕ, Bool, true, false, List, [], Option, none, some}
use shapeware.Base.Int.{ℤ, pos}
use shapeware.Text.{Text, codes}
use shapeware.StdMap.{StdMap}

abbrev pub Handler : Type 0
Handler = ℕ

-- `m_server`: `WsServerPlain`, or `WsServerTls` with its mode, certificate and key.
pub data WsServer : Type 0 where
  plain : WsServer
  tls : Text → Text → Text → WsServer

pub record Service (Hdl : Type 0) : Type 0 where
  pub launch_service : Option Text  -- by the directory that `getConfigurationDir` returns
  pub server : Option WsServer
  pub port : ℤ
  pub connections_str_map : StdMap Hdl Text
  pub auto_start : Bool
  pub accept_only_localhost : Bool
  pub tls_enabled : Bool
  pub tls_mode : Text
  pub cert : Text
  pub key : Text
  pub run_thd : Bool
  pub message_handler_func : Option Handler
  pub message_str_handler_func : Option Handler
  pub open_handler_func : Option Handler
  pub close_handler_func : Option Handler

pub data Event (Hdl : Type 0) : Type 0 where
  calls_open : Handler → Text → Event Hdl
  calls_close : Handler → Text → Event Hdl
  calls_message : Handler → Text → Text → Event Hdl
  calls_message_str : Handler → Text → Text → Event Hdl
  server_listens : ℤ → Event Hdl
  server_accepts : Event Hdl
  server_sends : Hdl → Text → Event Hdl
  server_closes : Hdl → Text → Event Hdl
  server_stops_listening : Event Hdl

pub data Error : Type 0 where
  built_without_tls : Error
  undefined_null : Error  -- a null pointer is followed

pub record Outcome (Hdl : Type 0) : Type 0 where
  pub service : Service Hdl
  pub events : List (Event Hdl)
  pub thrown : Option Error

module _ {Hdl : Type 0} where
  abbrev pub returns : Service Hdl → List (Event Hdl) → Outcome Hdl
  returns s es = record { service = s; events = es; thrown = none }

  abbrev pub throws : Service Hdl → List (Event Hdl) → Error → Outcome Hdl
  throws s es e = record { service = s; events = es; thrown = some e }

abbrev pub new : (Hdl : Type 0) → Service Hdl
new Hdl = record {
  launch_service = none;
  server = none;
  port = pos 1338;
  connections_str_map = [];
  auto_start = true;
  accept_only_localhost = false;
  tls_enabled = false;
  tls_mode = codes "intermediate";
  cert = [];
  key = [];
  run_thd = false;
  message_handler_func = none;
  message_str_handler_func = none;
  open_handler_func = none;
  close_handler_func = none;
}
