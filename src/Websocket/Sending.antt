-- ===== src/Websocket/Sending.antt =====
-- `sendMessage` (WebsocketCppService/WebsocketCppService.cpp). The loops read the map without the
-- mutex; here no other thread changes it meanwhile.
pub mod Laws
use shapeware.Base.{Bool, true, false, List, [], ◌∷◌, none, some, Option, if◌then◌else◌}
use shapeware.Text.{Text, text_eq, is_empty}
use shapeware.StdMap.{StdMap}
use shapeware.Websocket.State.{
  Service, Event, server_sends, Outcome, Error, undefined_null, returns, throws,
}

module _ {Hdl : Type 0} where
  unfoldable pub send_to_all : Text → StdMap Hdl Text → List (Event Hdl)
  send_to_all msg [] = []
  send_to_all msg ((hdl, conn_id) ∷ m) = server_sends hdl msg ∷ send_to_all msg m

  -- The loop with its `break`, and `getHndl`, which looks for the same entry.
  unfoldable pub send_to_first : Text → Text → StdMap Hdl Text → List (Event Hdl)
  send_to_first msg target [] = []
  send_to_first msg target ((hdl, conn_id) ∷ m) =
      let rest = send_to_first msg target m in
      if text_eq conn_id target then server_sends hdl msg ∷ [] else rest

  unfoldable pub send_message : Text → Text → Service Hdl → Outcome Hdl
  send_message msg target s =
      if s.run_thd
      then returns s (
          if is_empty target
          then send_to_all msg s.connections_str_map
          else send_to_first msg target s.connections_str_map)
      else returns s []
