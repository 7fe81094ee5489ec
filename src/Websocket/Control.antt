-- ===== src/Websocket/Control.antt =====
-- `start`, `stop`, `activate` and `deactivate` (WebsocketCppService/WebsocketCppService.cpp). The
-- JSON document and the launch service belong to the shape framework and to rapidjson.
pub mod Laws
use shapeware.Base.{
  ℕ, Bool, true, false, List, [], ◌∷◌, ◌++◌, Option, none, some, if◌then◌else◌, ◌==◌,
}
use shapeware.Base.Int.{ℤ, pos}
use shapeware.Text.{Text, codes}
use shapeware.StdMap.{StdMap}
use shapeware.StdMap.Laws.{or_value}
use shapeware.Websocket.State.{
  WsServer, plain, tls, Service, Event, server_listens, server_accepts, server_closes,
  server_stops_listening, built_without_tls, undefined_null, Outcome, returns, throws,
}

-- The members of the configuration by pointer, each where it is there with the type asked for.
pub record Document : Type 0 where
  pub int_at : Text → Option ℤ
  pub bool_at : Text → Option Bool
  pub string_at : Text → Option Text

-- Whether `listen` and `start_accept` throw; either exception is caught and traced.
pub data Listening : Type 0 where
  accepts listen_throws accept_throws : Listening

module _ {Hdl : Type 0} where
  abbrev pub listen_events : ℤ → Listening → List (Event Hdl)
  listen_events port listen_throws = server_listens port ∷ []
  listen_events port _ = server_listens port ∷ server_accepts ∷ []

  unfoldable pub start : Listening → Service Hdl → Outcome Hdl
  start reply s = elim s.server [
    | none ↦ throws s [] undefined_null
    | some server ↦ returns (record s { run_thd = true }) (listen_events s.port reply)
  ]

  unfoldable pub close_all : StdMap Hdl Text → List (Event Hdl)
  close_all [] = []
  close_all ((hdl, conn_id) ∷ m) = server_closes hdl conn_id ∷ close_all m

  -- `is_listening` is the answer of the server. The service thread is joined at the end; all this is
  -- one step, so that no connection is opened between the closing of the others and the join.
  unfoldable pub stop : Bool → Service Hdl → Outcome Hdl
  stop is_listening s =
      if s.run_thd
      then returns (record s { run_thd = false; connections_str_map = [] })
          ((if is_listening then server_stops_listening ∷ [] else [])
            ++ close_all s.connections_str_map)
      else returns s []

  unfoldable pub is_started : Service Hdl → Bool
  is_started s = s.run_thd

  -- `deactivate`, which only calls `stop`
  unfoldable pub deactivate : Bool → Service Hdl → Outcome Hdl
  unfolding stop
  deactivate is_listening s = stop is_listening s

  unfoldable pub attach_interface : Text → Service Hdl → Service Hdl
  attach_interface dir s = record s { launch_service = some dir }

-- `getPath`; `none` where the launch service is needed and missing.
unfoldable pub get_path : Option Text → Text → Option Text
get_path launch [] = some []
get_path launch (c ∷ path) =
    if c == b'/'
    then some (c ∷ path)
    else elim launch [ none ↦ none | some dir ↦ some (dir ++ (codes "/certs/" ++ c ∷ path)) ]

abbrev pub int_of_bool : Bool → ℤ
int_of_bool true = pos 1
int_of_bool false = pos 0

module _ {Hdl : Type 0} where
  -- The reading of the configuration. The value of `AutoStart` goes to the port, as in the code.
  read_document : Document → Service Hdl → Service Hdl
  read_document doc s = record s {
    port = elim (doc.bool_at (codes "/AutoStart")) [
      | some b ↦ int_of_bool b
      | none ↦ or_value (doc.int_at (codes "/WebsocketPort")) s.port
    ];
    accept_only_localhost =
        or_value (doc.bool_at (codes "/acceptOnlyLocalhost")) s.accept_only_localhost;
    tls_enabled = or_value (doc.bool_at (codes "/tlsEnabled")) s.tls_enabled;
    tls_mode = or_value (doc.string_at (codes "/tlsMode")) s.tls_mode;
    cert = or_value (doc.string_at (codes "/certificate")) s.cert;
    key = or_value (doc.string_at (codes "/privateKey")) s.key;
  }

  -- The choice of the server, and the start.
  create_server : Bool → Listening → Service Hdl → Outcome Hdl
  create_server without_tls reply s =
      let started = λ (server : WsServer).
        if s.auto_start
        then start reply (record s { server = some server })
        else returns (record s { server = some server }) [] in
      if s.tls_enabled
      then (if without_tls
          then throws s [] built_without_tls
          else started (tls s.tls_mode s.cert s.key))
      else started plain

  -- `without_tls` is whether the service is built with WS_WITHOUT_TLS.
  unfoldable pub activate : Bool → Document → Listening → Service Hdl → Outcome Hdl
  unfolding read_document create_server start
  activate without_tls doc reply s =
      let r = read_document doc s in
      elim (get_path s.launch_service r.cert) [
        | none ↦ throws r [] undefined_null
        | some cert ↦ elim (get_path s.launch_service r.key) [
          | none ↦ throws (record r { cert = cert }) [] undefined_null
          | some key ↦ create_server without_tls reply (record r { cert = cert; key = key })
        ]
      ]
