-- ===== src/WebsocketClient/Tests.antt =====
-- Runs of the websocket client (WebsocketCppClientService/WebsocketCppClientService.cpp).
use shapeware.Base.{◌≡◌, refl, List, [], ◌∷◌, some}
use shapeware.Text.{codes}
use shapeware.WebsocketClient.{
  new, Call, connects, opens, hears, sets_message_str, sets_message, run, ws_connect, message,
  message_str,
}

abbrev calls : List Call
calls =
    sets_message_str (some 1)
    ∷ sets_message (some 2)
    ∷ connects (codes "ws://a") (some 5)
    ∷ opens 5 (codes "S")
    ∷ hears (codes "m")
    ∷ []

heard :
    (run calls new).events ≡ ws_connect 5 ∷ message_str 1 (codes "m") ∷ message 2 (codes "m") ∷ []
unfolding run
heard = refl
