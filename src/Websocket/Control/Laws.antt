-- ===== src/Websocket/Control/Laws.antt =====
-- Starting, stopping and configuring (WebsocketCppService/WebsocketCppService.cpp).
use shapeware.Base.{refl, ap, List, ◌≡◌, Bool, true, false, [], ◌∷◌, none, some, arith}
use shapeware.Text.{Text, codes}
use shapeware.StdMap.{Less, StdMap, find}
use shapeware.Websocket.State.{Service, Event, server_closes}
use shapeware.Websocket.Callbacks.{on_message, on_close}
use shapeware.Websocket.Sending.{send_message}
use shapeware.Websocket.Control.{
  Document, accepts, stop, close_all, activate, int_of_bool, get_path, is_started,
}

module _ {Hdl : Type 0} where
  -- An `activate` with a configuration that has `AutoStart`, without TLS, with certificate and key
  -- unset, on a service that would start by itself: the service is started whatever `AutoStart`
  -- says, and it listens on port 1 or 0, the value of `AutoStart`, whatever `WebsocketPort` says.
  activate-auto_start :
      (s : Service Hdl) (doc : Document) (without_tls b : Bool)
      → doc.bool_at (codes "/AutoStart") ≡ some b
      → doc.bool_at (codes "/tlsEnabled") ≡ some false
      → doc.string_at (codes "/certificate") ≡ none
      → doc.string_at (codes "/privateKey") ≡ none
      → s.cert ≡ []
      → s.key ≡ []
      → s.auto_start ≡ true
      → let a = activate without_tls doc accepts s in
        (a.thrown ≡ none)
        × (is_started a.service ≡ true)
        × ((a.service).port ≡ int_of_bool b)
        × ((a.service).auto_start ≡ true)
  unfolding activate is_started get_path
  activate-auto_start s doc without_tls b ea et ec ek c k r = ground arith

module _ {Hdl : Type 0} ⦃o : Less Hdl⦄ where
  -- The connections that the server is told to close.
  abbrev pub closed : List (Event Hdl) → List (Hdl × Text)
  closed [] = []
  closed (server_closes hdl id ∷ es) = (hdl, id) ∷ closed es
  closed (_ ∷ es) = closed es

  closed-close_all : (m : StdMap Hdl Text) → closed (close_all m) ≡ m
  unfolding close_all
  closed-close_all [] = refl
  closed-close_all ((hdl, id) ∷ m) = ap (λ l. (hdl, id) ∷ l) (closed-close_all m)

  stop-closed :
      (s : Service Hdl) (is_listening : Bool)
      → s.run_thd ≡ true
      → closed (stop is_listening s).events ≡ s.connections_str_map
  unfolding stop
  stop-closed s true run = rw run (closed-close_all s.connections_str_map)
  stop-closed s false run = rw run (closed-close_all s.connections_str_map)

  -- `stop` on a started service closes the connections that it knows, each once, and no other; after
  -- it, where no connection was opened meanwhile, the service is not started, a message on any
  -- connection and its close call nothing, no message is sent, and another `stop` does nothing.
  pub stop-silences :
      (s : Service Hdl) (k : Hdl) (msg target : Text) (is_listening is_listening' : Bool)
      → s.run_thd ≡ true
      → let t = stop is_listening s in
        (closed t.events ≡ s.connections_str_map)
        × (is_started t.service ≡ false)
        × ((on_message k msg t.service).events ≡ [])
        × ((on_close k t.service).events ≡ [])
        × ((send_message msg target t.service).events ≡ [])
        × ((stop is_listening' t.service).events ≡ [])
  unfolding stop is_started on_message on_close send_message find
  stop-silences s k msg target l l' run =
      (stop-closed s l run, ground arith, ground arith, ground arith, ground arith, ground arith)
