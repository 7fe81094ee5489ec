-- ===== src/Websocket/Tests.antt =====
-- Runs of the websocket service (WebsocketCppService/WebsocketCppService.cpp), with numbers for the
-- connections.
use shapeware.Base.{◌≡◌, refl, true, false, List, [], ◌∷◌, some}
use shapeware.Base.Int.{ℤ, pos}
use shapeware.Text.{codes}
use shapeware.StdMap.{find}
use shapeware.StdMap.Keys.{int_order}
use shapeware.Websocket.State.{Service, new}
use shapeware.Websocket.Callbacks.{on_message, on_close}
use shapeware.Websocket.Callbacks.History.{
  Report, opened, closed, received, hear_all, id_after, hear_all-id,
}
use shapeware.Websocket.Sending.{send_message}
use shapeware.Websocket.Control.{is_started, stop}
use shapeware.Websocket.Control.Laws.{closed as closed_by_stop, stop-silences}

abbrev handled : Service ℤ
handled = record (new ℤ) {
  run_thd = true;
  open_handler_func = some 1;
  message_str_handler_func = some 2;
  message_handler_func = some 3;
  close_handler_func = some 4;
  connections_str_map = (pos 5, codes "/x") ∷ [];
}

abbrev reports : List (Report ℤ)
reports = opened (pos 7) (codes "/y") ∷ received (pos 7) (codes "m") ∷ closed (pos 5) ∷ []

hear_all-id_example :
    find (pos 5) (hear_all reports handled).connections_str_map
    ≡ id_after (pos 5) reports (find (pos 5) handled.connections_str_map)
hear_all-id_example = hear_all-id (pos 5) reports handled (tt, tt)

stop-silences_example :
    let t = stop true handled in
    (closed_by_stop t.events ≡ handled.connections_str_map)
    × (is_started t.service ≡ false)
    × ((on_message (pos 5) (codes "m") t.service).events ≡ [])
    × ((on_close (pos 5) t.service).events ≡ [])
    × ((send_message (codes "m") [] t.service).events ≡ [])
    × ((stop true t.service).events ≡ [])
unfolding find
stop-silences_example = stop-silences handled (pos 5) (codes "m") [] true true refl
