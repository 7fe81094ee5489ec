-- ===== src/Websocket/Server/Local.antt =====
-- Where only the local host is accepted (WebsocketCppService/WebsocketCppService.cpp, WsServer.h).
use shapeware.Base.{
  ◌≡◌, ◌⊎◌, inl, inr, sym, ap, ◌∙◌, true, List, [], ◌∷◌, some, arith, Bool-cases, Option-cases,
}
use shapeware.Text.{Text, codes, text_eq_iff, c_string}
use shapeware.StdMap.{Less, StdMap, find, insert, erase, same, IsOrdered}
use shapeware.StdMap.Laws.{same_iff, find-insert, find-erase, insert-IsOrdered, erase-IsOrdered}
use shapeware.Websocket.State.{Service}
use shapeware.Websocket.Callbacks.{on_validate, on_open, on_close, on_message, get_conn_id}
use shapeware.Websocket.Server.{
  Library, Arrival, connects, fails, closes, delivers, service_functions, arrive, serve,
}

abbrev pub IsLocal : Text → Type 0
IsLocal host = (host ≡ codes "localhost") ⊎ ((host ≡ codes "127.0.0.1") ⊎ (host ≡ codes "[::1]"))

module _ {Hdl : Type 0} ⦃o : Less Hdl⦄ (lib : Library Hdl) where
  -- The service accepts only the local host, and the connections in its map are local ones, each
  -- with its own id.
  pub record IsGuarded (s : Service Hdl) : Type 0 where
    pub only : s.accept_only_localhost ≡ true
    pub ordered : IsOrdered s.connections_str_map
    pub locals :
        (hdl : Hdl) (conn_id : Text)
        → find hdl s.connections_str_map ≡ some conn_id
        → (conn_id ≡ lib.conn_id_of hdl) × IsLocal (lib.uri_of hdl).host

  validated-IsLocal :
      (host : Text) (s : Service Hdl)
      → s.accept_only_localhost ≡ true
      → on_validate host s ≡ true
      → IsLocal host
  unfolding on_validate
  validated-IsLocal host s only h = ground (
    arith,
    text_eq_iff host (codes "localhost"),
    text_eq_iff host (codes "127.0.0.1"),
    text_eq_iff host (codes "[::1]"),
  )

  inserted-locals :
      (m : StdMap Hdl Text) (new hdl : Hdl) (conn_id : Text)
      → IsOrdered m
      → ((k : Hdl) (id : Text)
          → find k m ≡ some id
          → (id ≡ lib.conn_id_of k) × IsLocal (lib.uri_of k).host)
      → IsLocal (lib.uri_of new).host
      → find hdl (insert new (lib.conn_id_of new) m) ≡ some conn_id
      → (conn_id ≡ lib.conn_id_of hdl) × IsLocal (lib.uri_of hdl).host
  inserted-locals m new hdl conn_id ordered old is_local found =
      let looked = sym (find-insert hdl new (lib.conn_id_of new) m ordered) ∙ found in
      elim (Bool-cases (same hdl new)) [
        | inr other ↦ old hdl conn_id (ground (arith, looked, other))
        | inl eq ↦
            let e : hdl ≡ new = (same_iff hdl new).0 eq in
            elim (Option-cases (find new m)) [
              | inl absent ↦
                  let id : conn_id ≡ lib.conn_id_of new = ground (arith, looked, eq, absent) in
                  (id ∙ ap lib.conn_id_of (sym e), rw e is_local)
              | inr (id, present) ↦
                  let is_id : id ≡ conn_id = ground (arith, looked, eq, present) in
                  rw e (old new conn_id (present ∙ ap some is_id))
            ]
      ]

  opens-IsGuarded :
      (hdl : Hdl) (s : Service Hdl)
      → IsGuarded s
      → IsLocal (lib.uri_of hdl).host
      → IsGuarded (on_open hdl (lib.conn_id_of hdl) s).service
  unfolding on_open
  opens-IsGuarded hdl s g is_local = record {
    only = g.only;
    ordered = insert-IsOrdered hdl (lib.conn_id_of hdl) s.connections_str_map g.ordered;
    locals = λ k id found.
        inserted-locals s.connections_str_map hdl k id g.ordered g.locals is_local found;
  }

  nothing-found : (k : Hdl) (id : Text) → find k [] ≡ some id → ⊥
  unfolding find
  nothing-found k id e = cc

  erased-find :
      (m : StdMap Hdl Text) (old hdl : Hdl) (conn_id : Text)
      → IsOrdered m
      → find hdl (erase old m) ≡ some conn_id
      → find hdl m ≡ some conn_id
  erased-find m old hdl conn_id ordered found = ground (arith, find-erase hdl old m ordered)

  on_close-map :
      (hdl : Hdl) (s : Service Hdl)
      → ((on_close hdl s).service.connections_str_map ≡ erase hdl s.connections_str_map)
        × ((on_close hdl s).service.accept_only_localhost ≡ s.accept_only_localhost)
  unfolding on_close get_conn_id
  on_close-map hdl s = ground arith

  closes-IsGuarded :
      (hdl : Hdl) (s : Service Hdl) → IsGuarded s → IsGuarded (on_close hdl s).service
  closes-IsGuarded hdl s g =
      let m = s.connections_str_map in
      let (erased, only) = on_close-map hdl s in
      record {
        only = only ∙ g.only;
        ordered = rw erased (erase-IsOrdered hdl m g.ordered);
        locals = λ k id found.
            g.locals k id (erased-find m hdl k id g.ordered (ap (find k) (sym erased) ∙ found));
      }

  on_message-service :
      (hdl : Hdl) (msg : Text) (s : Service Hdl) → (on_message hdl msg s).service ≡ s
  unfolding on_message get_conn_id
  on_message-service hdl msg s = ground arith

  arrive-IsGuarded :
      (a : Arrival Hdl) (s : Service Hdl)
      → IsGuarded s
      → IsGuarded (arrive lib service_functions a s).service
  unfolding arrive service_functions
  arrive-IsGuarded (connects hdl) s g = elim (Bool-cases (on_validate (lib.uri_of hdl).host s)) [
    | inl valid ↦
        rw valid (opens-IsGuarded hdl s g (validated-IsLocal (lib.uri_of hdl).host s g.only valid))
    | inr refused ↦ rw refused g
  ]
  arrive-IsGuarded (fails hdl) s g = g
  arrive-IsGuarded (closes hdl) s g = closes-IsGuarded hdl s g
  arrive-IsGuarded (delivers hdl payload) s g = rw (on_message-service hdl (c_string payload) s) g

  serve-IsGuarded :
      (arrivals : List (Arrival Hdl)) (s : Service Hdl)
      → IsGuarded s
      → IsGuarded (serve lib service_functions arrivals s)
  unfolding serve
  serve-IsGuarded [] s g = g
  serve-IsGuarded (a ∷ arrivals) s g =
      serve-IsGuarded arrivals (arrive lib service_functions a s).service (arrive-IsGuarded a s g)

  -- When a service without connections accepts only the local host, then whatever the library
  -- reports, and in whatever order: each connection in its map stands there with its own id, and the
  -- host of its uri is one of the three names of the local host.
  pub serve-IsLocal :
      (arrivals : List (Arrival Hdl)) (s : Service Hdl) (hdl : Hdl) (conn_id : Text)
      → s.accept_only_localhost ≡ true
      → s.connections_str_map ≡ []
      → find hdl (serve lib service_functions arrivals s).connections_str_map ≡ some conn_id
      → (conn_id ≡ lib.conn_id_of hdl) × IsLocal (lib.uri_of hdl).host
  serve-IsLocal arrivals s hdl conn_id only empty found =
      let start : IsGuarded s = record {
        only = only;
        ordered = rw empty tt;
        locals = λ k id e. absurd (nothing-found k id (ap (find k) (sym empty) ∙ e));
      } in
      (serve-IsGuarded arrivals s start).locals hdl conn_id found
