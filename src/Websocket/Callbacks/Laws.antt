-- ===== src/Websocket/Callbacks/Laws.antt =====
-- What the client of the websocket service hears of its connections
-- (WebsocketCppService/WebsocketCppService.cpp, WsServer.h).
use shapeware.Base.{◌≡◌, false, [], ◌∷◌, ◌++◌, none, some, arith}
use shapeware.Text.{Text, has_byte, c_string-zero, c_string-whole}
use shapeware.StdMap.{Less, find, insert, IsOrdered}
use shapeware.StdMap.Laws.{same_iff, find-insert, find-erase_self, insert-IsOrdered}
use shapeware.Websocket.State.{
  Handler, Service, calls_open, calls_close, calls_message, calls_message_str,
}
use shapeware.Websocket.Callbacks.{on_open, on_message, on_close, server_message}

module _ {Hdl : Type 0} ⦃o : Less Hdl⦄ where
  -- A connection that is not yet known, when all four handlers are registered and the map is
  -- ordered: its opening calls the open handler with its id; a message on it calls the text handler
  -- and then the byte handler with the message and the id; its close calls the close handler with
  -- the id; after that, another close and another message call nothing.
  connection_session :
      (s : Service Hdl) (hdl : Hdl) (id msg : Text) (f g h k : Handler)
      → IsOrdered s.connections_str_map
      → find hdl s.connections_str_map ≡ none
      → s.open_handler_func ≡ some f
      → s.message_str_handler_func ≡ some g
      → s.message_handler_func ≡ some h
      → s.close_handler_func ≡ some k
      → let opened = on_open hdl id s in
        let heard = on_message hdl msg opened.service in
        let closed = on_close hdl opened.service in
        (opened.events ≡ calls_open f id ∷ [])
        × (heard.events ≡ calls_message_str g msg id ∷ calls_message h msg id ∷ [])
        × (closed.events ≡ calls_close k id ∷ [])
        × ((on_close hdl closed.service).events ≡ [])
        × ((on_message hdl msg closed.service).events ≡ [])
  unfolding on_open on_message on_close
  connection_session s hdl id msg f g h k ord fresh ef eg eh ek =
      let known = find-insert hdl hdl id s.connections_str_map ord in
      let gone =
        find-erase_self hdl (insert hdl id s.connections_str_map)
          (insert-IsOrdered hdl id s.connections_str_map ord) in
      let refl_same = same_iff hdl hdl in
      (
        ground arith,
        ground (arith, known, refl_same),
        ground (arith, known, refl_same),
        ground (arith, known, refl_same, gone),
        ground (arith, known, refl_same, gone),
      )

  -- A payload without a zero byte reaches the handlers whole. Of one with a zero byte only what
  -- stands before the first one does, so that the rest is lost.
  server_message_cut :
      (hdl : Hdl) (t r : Text) (s : Service Hdl)
      → has_byte 0 t ≡ false
      → (server_message hdl t s ≡ on_message hdl t s)
        × (server_message hdl (t ++ 0 ∷ r) s ≡ on_message hdl t s)
  unfolding server_message
  server_message_cut hdl t r s h = (rw (c_string-whole t h), rw (c_string-zero t r h))
