-- ===== src/Websocket/Sending/Laws.antt =====
-- Who gets a message that is sent (WebsocketCppService/WebsocketCppService.cpp).
use shapeware.Base.{◌≡◌, ◌≢◌, refl, true, false, [], ◌∷◌, none, arith}
use shapeware.Text.{Text, text_eq, text_eq_iff}
use shapeware.StdMap.{Less, StdMap, find, insert}
use shapeware.Websocket.State.{Service, server_sends}
use shapeware.Websocket.Callbacks.{on_open}
use shapeware.Websocket.Sending.{send_to_first, send_message}

module _ {Hdl : Type 0} where
  -- No connection has the id.
  abbrev pub LacksId : Text → StdMap Hdl Text → Type 0
  LacksId id [] = Unit
  LacksId id ((hdl, conn_id) ∷ m) = (text_eq conn_id id ≡ false) × LacksId id m

module _ {Hdl : Type 0} ⦃o : Less Hdl⦄ where
  send_to_first-insert :
      (hdl : Hdl) (id msg : Text) (m : StdMap Hdl Text)
      → LacksId id m
      → find hdl m ≡ none
      → send_to_first msg id (insert hdl id m) ≡ server_sends hdl msg ∷ []
  unfolding send_to_first insert find
  send_to_first-insert hdl id msg [] l f = ground (arith, text_eq_iff id id)
  send_to_first-insert hdl id msg ((j, w) ∷ m) l f =
      ground (arith, text_eq_iff id id, send_to_first-insert hdl id msg m l.1)

  send_to_first-lacks :
      (id msg : Text) (m : StdMap Hdl Text) → LacksId id m → send_to_first msg id m ≡ []
  unfolding send_to_first
  send_to_first-lacks id msg [] l = refl
  send_to_first-lacks id msg ((j, w) ∷ m) l = ground (arith, send_to_first-lacks id msg m l.1)

  -- On a started service to which no connection with the given id, which is not empty, and no
  -- connection with the given handle belongs: a message to the id goes nowhere; once the connection
  -- is opened under the id, it goes to that connection and to no other. On a service that is not
  -- started it goes nowhere.
  send_message-on_open :
      (s : Service Hdl) (hdl : Hdl) (id msg : Text)
      → s.run_thd ≡ true
      → id ≢ []
      → LacksId id s.connections_str_map
      → find hdl s.connections_str_map ≡ none
      → let s' = (on_open hdl id s).service in
        ((send_message msg id s).events ≡ [])
        × ((send_message msg id s').events ≡ server_sends hdl msg ∷ [])
        × ((send_message msg id (record s' { run_thd = false })).events ≡ [])
  unfolding send_message on_open
  send_message-on_open s hdl [] msg run ne l f = absurd (ne refl)
  send_message-on_open s hdl (c ∷ id) msg run ne l f = (
    ground (arith, send_to_first-lacks (c ∷ id) msg s.connections_str_map l),
    ground (arith, send_to_first-insert hdl (c ∷ id) msg s.connections_str_map l f),
    ground arith,
  )
