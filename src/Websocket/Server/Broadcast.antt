-- ===== src/Websocket/Server/Broadcast.antt =====
-- A broadcast over connections that may be gone (WebsocketCppService/WsServer.h).
use shapeware.Base.{◌≡◌, refl, Bool, true, false, List, [], ◌∷◌, ◌++◌, if◌then◌else◌, arith}
use shapeware.Text.{Text}
use shapeware.StdMap.{StdMap}
use shapeware.Websocket.Server.{Library, send_throws, broadcast}

module _ {Hdl : Type 0} (lib : Library Hdl) where
  abbrev pub handles : StdMap Hdl Text → List Hdl
  handles [] = []
  handles ((hdl, conn_id) ∷ m) = hdl ∷ handles m

  -- Whether `send` throws for none of the connections.
  abbrev pub none_throws : StdMap Hdl Text → Bool
  none_throws [] = true
  none_throws ((hdl, conn_id) ∷ m) = if send_throws lib hdl then false else none_throws m

  pub broadcast-all :
      (m : StdMap Hdl Text) → none_throws m ≡ true → broadcast lib m ≡ (handles m, false)
  unfolding broadcast
  broadcast-all [] h = refl
  broadcast-all ((hdl, conn_id) ∷ m) h = ground (arith, broadcast-all m)

  -- Where `send` throws for none of the connections, a broadcast calls it once for each, in the
  -- order of the map, and throws nothing; but after the first connection for which it throws, it is
  -- called for none of the others, and the broadcast throws.
  pub broadcast-stops :
      (before after : StdMap Hdl Text) (hdl : Hdl) (conn_id : Text)
      → none_throws before ≡ true
      → send_throws lib hdl ≡ true
      → (broadcast lib before ≡ (handles before, false))
        × (broadcast lib (before ++ (hdl, conn_id) ∷ after) ≡ (handles before ++ hdl ∷ [], true))
  unfolding broadcast
  broadcast-stops [] after hdl conn_id h t = ground arith
  broadcast-stops ((k, id) ∷ before) after hdl conn_id h t =
      ground (arith, broadcast-stops before after hdl conn_id)
