-- ===== src/Websocket/Callbacks/History.antt =====
-- The map of connections as a function of what the server reported
-- (WebsocketCppService/WebsocketCppService.cpp).
use shapeware.Base.{◌≡◌, refl, ◌∙◌, ap, List, [], ◌∷◌, Option, none, some, if◌then◌else◌, arith}
use shapeware.Text.{Text}
use shapeware.StdMap.{Less, find, same, IsOrdered}
use shapeware.StdMap.Laws.{
  or_value, same_iff, find-insert, find-erase, insert-IsOrdered, erase-IsOrdered,
}
use shapeware.Websocket.State.{Service}
use shapeware.Websocket.Callbacks.{on_open, on_message, on_close}

pub data Report (Hdl : Type 0) : Type 0 where
  opened : Hdl → Text → Report Hdl
  closed : Hdl → Report Hdl
  received : Hdl → Text → Report Hdl

module _ {Hdl : Type 0} ⦃o : Less Hdl⦄ where
  unfoldable pub hear : Report Hdl → Service Hdl → Service Hdl
  hear (opened hdl id) s = (on_open hdl id s).service
  hear (closed hdl) s = (on_close hdl s).service
  hear (received hdl msg) s = (on_message hdl msg s).service

  unfoldable pub hear_all : List (Report Hdl) → Service Hdl → Service Hdl
  hear_all [] s = s
  hear_all (r ∷ rs) s = hear_all rs (hear r s)

  -- The id of one connection: the first opening since its last close counts.
  abbrev pub id_after_one : Hdl → Report Hdl → Option Text → Option Text
  id_after_one k (opened hdl id) old = if same k hdl then some (or_value old id) else old
  id_after_one k (closed hdl) old = if same k hdl then none else old
  id_after_one k (received hdl msg) old = old

  abbrev pub id_after : Hdl → List (Report Hdl) → Option Text → Option Text
  id_after k [] old = old
  id_after k (r ∷ rs) old = id_after k rs (id_after_one k r old)

  hear-IsOrdered :
      (r : Report Hdl) (s : Service Hdl)
      → IsOrdered s.connections_str_map
      → IsOrdered (hear r s).connections_str_map
  unfolding hear on_open on_close on_message
  hear-IsOrdered (opened hdl id) s h = insert-IsOrdered hdl id s.connections_str_map h
  hear-IsOrdered (closed hdl) s h = ground (arith, erase-IsOrdered hdl s.connections_str_map h)
  hear-IsOrdered (received hdl msg) s h = ground arith

  hear-id :
      (k : Hdl) (r : Report Hdl) (s : Service Hdl)
      → IsOrdered s.connections_str_map
      → find k (hear r s).connections_str_map ≡ id_after_one k r (find k s.connections_str_map)
  unfolding hear on_open on_close on_message
  hear-id k (opened hdl id) s h =
      ground (arith, find-insert k hdl id s.connections_str_map h, same_iff k hdl)
  hear-id k (closed hdl) s h = ground (arith, find-erase k hdl s.connections_str_map h)
  hear-id k (received hdl msg) s h = ground arith

  -- Whatever the server reports, in any order, to a service whose map is ordered: the map holds,
  -- for each connection, the id of its first opening since its last close, and what it held before
  -- if neither was reported.
  pub hear_all-id :
      (k : Hdl) (rs : List (Report Hdl)) (s : Service Hdl)
      → IsOrdered s.connections_str_map
      → find k (hear_all rs s).connections_str_map ≡ id_after k rs (find k s.connections_str_map)
  unfolding hear_all
  hear_all-id k [] s h = refl
  hear_all-id k (r ∷ rs) s h =
      hear_all-id k rs (hear r s) (hear-IsOrdered r s h) ∙ ap (id_after k rs) (hear-id k r s h)
