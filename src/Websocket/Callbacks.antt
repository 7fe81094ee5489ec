-- ===== src/Websocket/Callbacks.antt =====
-- What the websocket server calls back (WebsocketCppService/WebsocketCppService.cpp and the
-- handlers that WebsocketCppService/WsServer.h installs), and the registration of handlers. `m_mux`
-- makes each access to the map one step.
pub mod Laws
pub mod History
use shapeware.Base.{Bool, true, false, ◌||◌, List, [], ◌∷◌, ◌++◌, Option, none, some, if◌then◌else◌}
use shapeware.Text.{Text, text_eq, codes, c_string}
use shapeware.StdMap.{Less, find, insert, erase}
use shapeware.Websocket.State.{
  Handler, Service, Event, calls_open, calls_close, calls_message, calls_message_str, Outcome,
  returns,
}

module _ {Hdl : Type 0} where
  abbrev pub call_if : Option Handler → (Handler → Event Hdl) → List (Event Hdl)
  call_if none f = []
  call_if (some h) f = f h ∷ []

  -- Whether a connection from the host is let in.
  unfoldable pub on_validate : Text → Service Hdl → Bool
  on_validate host s =
      if s.accept_only_localhost
      then text_eq host (codes "localhost")
        || (text_eq host (codes "127.0.0.1") || text_eq host (codes "[::1]"))
      else true

module _ {Hdl : Type 0} ⦃o : Less Hdl⦄ where
  unfoldable pub get_conn_id : Hdl → Service Hdl → Option Text
  get_conn_id hdl s = find hdl s.connections_str_map

  unfoldable pub on_message : Hdl → Text → Service Hdl → Outcome Hdl
  unfolding get_conn_id
  on_message hdl msg s = elim (get_conn_id hdl s) [
    | none ↦ returns s []
    | some conn_id ↦ returns s (
        call_if s.message_str_handler_func (λ h. calls_message_str h msg conn_id)
        ++ call_if s.message_handler_func (λ h. calls_message h msg conn_id))
  ]

  -- The message handler of the server (WsServer.h), which makes the text of the message from
  -- `get_payload().data()`, a `const char *`.
  unfoldable pub server_message : Hdl → Text → Service Hdl → Outcome Hdl
  unfolding on_message
  server_message hdl payload s = on_message hdl (c_string payload) s

  unfoldable pub on_open : Hdl → Text → Service Hdl → Outcome Hdl
  on_open hdl conn_id s =
      returns (record s { connections_str_map = insert hdl conn_id s.connections_str_map })
        (call_if s.open_handler_func (λ h. calls_open h conn_id))

  unfoldable pub on_close : Hdl → Service Hdl → Outcome Hdl
  unfolding get_conn_id
  on_close hdl s =
      let s' = record s { connections_str_map = erase hdl s.connections_str_map } in
      elim (get_conn_id hdl s) [
        | none ↦ returns s' []
        | some conn_id ↦ returns s' (call_if s.close_handler_func (λ h. calls_close h conn_id))
      ]

-- Registration: a handler, or none to unregister it.
module _ {Hdl : Type 0} where
  unfoldable pub set_message_handler : Option Handler → Service Hdl → Service Hdl
  set_message_handler h s = record s { message_handler_func = h }

  unfoldable pub set_message_str_handler : Option Handler → Service Hdl → Service Hdl
  set_message_str_handler h s = record s { message_str_handler_func = h }

  unfoldable pub set_open_handler : Option Handler → Service Hdl → Service Hdl
  set_open_handler h s = record s { open_handler_func = h }

  unfoldable pub set_close_handler : Option Handler → Service Hdl → Service Hdl
  set_close_handler h s = record s { close_handler_func = h }
