-- ===== src/Websocket/Server.antt =====
-- The server around websocketpp (WebsocketCppService/WsServer.h, and WsServerPlain and WsServerTls,
-- which add nothing to it but the context of TLS), with the functions that WebsocketCppService gives
-- to it. The library is a parameter: what it says of a connection.
pub mod Local
pub mod Broadcast
pub mod Tests
use shapeware.Base.{
  Bool, true, false, ◌&&◌, not, List, [], ◌∷◌, ◌++◌, Option, none, some, if◌then◌else◌,
}
use shapeware.Base.Int.{ℤ}
use shapeware.Text.{Text, codes, c_string}
use shapeware.StdMap.{StdMap, Less}
use shapeware.Websocket.State.{
  Service, Event, server_listens, server_accepts, server_sends, server_closes,
  server_stops_listening, Outcome, returns,
}
use shapeware.Websocket.Callbacks.{on_validate, on_open, on_close, on_message}

-- The part of `websocketpp::uri` that is used.
pub record Uri : Type 0 where
  pub host : Text
  pub query : Text

pub record Library (Hdl : Type 0) : Type 0 where
  -- The address of the connection as text, and the uri of its request.
  pub conn_id_of : Hdl → Text
  pub uri_of : Hdl → Uri
  -- The text of the error of a connection that failed.
  pub error_of : Hdl → Text
  -- Whether `send` sets its error code, and whether the handle still has its connection.
  pub send_fails : Hdl → Bool
  pub is_alive : Hdl → Bool

-- The functions that the server was given; none until `setOnFunctions`.
pub record OnFunctions (Hdl : Type 0) : Type 0 where
  pub validate_func : Option (Hdl → Text → Text → Service Hdl → Bool)
  pub open_func : Option (Hdl → Text → Text → Text → Service Hdl → Outcome Hdl)
  pub fail_func : Option (Hdl → Text → Service Hdl → Outcome Hdl)
  pub close_func : Option (Hdl → Service Hdl → Outcome Hdl)
  pub message_func : Option (Hdl → Text → Service Hdl → Outcome Hdl)

-- What websocketpp is asked for.
pub data LibraryCall (Hdl : Type 0) : Type 0 where
  sets_reuse_addr : LibraryCall Hdl
  listens : ℤ → LibraryCall Hdl
  starts_accept : LibraryCall Hdl
  sends_text : Hdl → Text → LibraryCall Hdl
  closes_normal : Hdl → Text → LibraryCall Hdl
  stops_listening : LibraryCall Hdl

module _ {Hdl : Type 0} where
  -- `listen`, `start_accept`, `send`, `close` and `stop_listening` of the server; `stop` of the
  -- service gives `close` the same text for every connection.
  unfoldable pub server_calls : Event Hdl → List (LibraryCall Hdl)
  server_calls (server_listens port) = sets_reuse_addr ∷ listens port ∷ []
  server_calls server_accepts = starts_accept ∷ []
  server_calls (server_sends hdl msg) = sends_text hdl msg ∷ []
  server_calls (server_closes hdl conn_id) =
      closes_normal hdl (codes "Terminating connection...") ∷ []
  server_calls server_stops_listening = stops_listening ∷ []
  server_calls _ = []

  -- Whether `send` throws: its report of an error asks for the connection once more.
  unfoldable pub send_throws : Library Hdl → Hdl → Bool
  send_throws lib hdl = lib.send_fails hdl && not (lib.is_alive hdl)

  -- The loop of a broadcast over this `send`: the connections that it was called for, and whether
  -- it threw.
  unfoldable pub broadcast : Library Hdl → StdMap Hdl Text → List Hdl × Bool
  unfolding send_throws
  broadcast lib [] = ([], false)
  broadcast lib ((hdl, conn_id) ∷ m) =
      let (rest, thrown) = broadcast lib m in
      if send_throws lib hdl then (hdl ∷ [], true) else (hdl ∷ rest, thrown)

  abbrev pub no_functions : OnFunctions Hdl
  no_functions = record {
    validate_func = none;
    open_func = none;
    fail_func = none;
    close_func = none;
    message_func = none;
  }

  -- The handlers that the server installs.
  unfoldable pub validate_handler : Library Hdl → OnFunctions Hdl → Hdl → Service Hdl → Bool
  validate_handler lib fs hdl s = elim fs.validate_func [
    | none ↦ false
    | some f ↦ f hdl (lib.conn_id_of hdl) (lib.uri_of hdl).host s
  ]

  unfoldable pub open_handler : Library Hdl → OnFunctions Hdl → Hdl → Service Hdl → Outcome Hdl
  open_handler lib fs hdl s = elim fs.open_func [
    | none ↦ returns s []
    | some f ↦ f hdl (lib.conn_id_of hdl) (lib.uri_of hdl).host (lib.uri_of hdl).query s
  ]

  unfoldable pub fail_handler : Library Hdl → OnFunctions Hdl → Hdl → Service Hdl → Outcome Hdl
  fail_handler lib fs hdl s = elim fs.fail_func [
    | none ↦ returns s []
    | some f ↦ f hdl (lib.error_of hdl) s
  ]

  unfoldable pub close_handler : OnFunctions Hdl → Hdl → Service Hdl → Outcome Hdl
  close_handler fs hdl s = elim fs.close_func [ none ↦ returns s [] | some f ↦ f hdl s ]

  unfoldable pub message_handler : OnFunctions Hdl → Hdl → Text → Service Hdl → Outcome Hdl
  message_handler fs hdl payload s = elim fs.message_func [
    | none ↦ returns s []
    | some f ↦ f hdl (c_string payload) s
  ]

-- What the library reports; a connection is opened once it is validated.
pub data Arrival (Hdl : Type 0) : Type 0 where
  connects : Hdl → Arrival Hdl
  fails : Hdl → Arrival Hdl
  closes : Hdl → Arrival Hdl
  delivers : Hdl → Text → Arrival Hdl

module _ {Hdl : Type 0} ⦃o : Less Hdl⦄ where
  -- The functions that `activate` gives to the server, and `on_fail`, which only traces.
  unfoldable pub service_functions : OnFunctions Hdl
  service_functions = record {
    validate_func = some (λ hdl conn_id host s. on_validate host s);
    open_func = some (λ hdl conn_id host query s. on_open hdl conn_id s);
    fail_func = some (λ hdl errstr s. returns s []);
    close_func = some (λ hdl s. on_close hdl s);
    message_func = some (λ hdl msg s. on_message hdl msg s);
  }

  unfoldable pub arrive : Library Hdl → OnFunctions Hdl → Arrival Hdl → Service Hdl → Outcome Hdl
  unfolding validate_handler open_handler fail_handler close_handler message_handler
  arrive lib fs (connects hdl) s =
      if validate_handler lib fs hdl s then open_handler lib fs hdl s else returns s []
  arrive lib fs (fails hdl) s = fail_handler lib fs hdl s
  arrive lib fs (closes hdl) s = close_handler fs hdl s
  arrive lib fs (delivers hdl payload) s = message_handler fs hdl payload s

  -- The service after what the library reports, in its order.
  unfoldable pub serve :
      Library Hdl → OnFunctions Hdl → List (Arrival Hdl) → Service Hdl → Service Hdl
  unfolding arrive
  serve lib fs [] s = s
  serve lib fs (a ∷ arrivals) s = serve lib fs arrivals (arrive lib fs a s).service
