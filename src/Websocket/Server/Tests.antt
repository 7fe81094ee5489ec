-- ===== src/Websocket/Server/Tests.antt =====
-- Runs of the server, of its context of TLS and of its log (WebsocketCppService/WsServer.h,
-- WebsocketCppService/WsServerTls.cpp, WebsocketCppService/LogStream.cpp).
use shapeware.Base.{◌≡◌, refl, Bool, true, false, not, List, [], ◌∷◌, some, if◌then◌else◌, ◌==◌}
use shapeware.Base.Int.{ℤ, pos, negsuc}
use shapeware.Text.{Text, codes}
use shapeware.StdMap.{find, insert, erase}
use shapeware.StdMap.Keys.{int_order}
use shapeware.Websocket.State.{Service, new}
use shapeware.Websocket.Callbacks.{on_validate, on_open, on_close, get_conn_id}
use shapeware.Websocket.Server.{
  Library, Arrival, connects, closes, broadcast, send_throws, service_functions, arrive, serve,
  validate_handler, open_handler, close_handler,
}
use shapeware.Websocket.Server.Local.{IsLocal, serve-IsLocal}
use shapeware.Websocket.Server.Broadcast.{broadcast-stops}
use shapeware.Websocket.Tls.{
  ContextOption, default_workarounds, no_sslv2, no_sslv3, single_dh_use, no_tlsv1, no_tlsv1_1,
  mozilla_intermediate, get_cipher_suites, Answers, set_tls, on_tls_init,
}
use shapeware.Websocket.Tls.Laws.{tls_init-not_old}
use shapeware.Websocket.LogStream.{new as new_stream, write_all}
use shapeware.Websocket.LogStream.Laws.{IsLogged, write_all-new}

abbrev is_five : ℤ → Bool
is_five (pos n) = n == 5
is_five (negsuc n) = false

-- Connection 5 is from the local host and alive, every other one is remote and gone.
abbrev small_library : Library ℤ
small_library = record {
  conn_id_of = λ hdl. codes "/c";
  uri_of = λ hdl. record {
    host = if is_five hdl then codes "localhost" else codes "example.com";
    query = [];
  };
  error_of = λ hdl. [];
  send_fails = λ hdl. not (is_five hdl);
  is_alive = λ hdl. is_five hdl;
}

abbrev guarded : Service ℤ
guarded = record (new ℤ) { accept_only_localhost = true }

abbrev two_connect : List (Arrival ℤ)
two_connect = connects (pos 5) ∷ connects (pos 6) ∷ closes (pos 6) ∷ []

serve-IsLocal_example : (codes "/c" ≡ codes "/c") × IsLocal (codes "localhost")
unfolding serve arrive validate_handler open_handler close_handler service_functions on_validate
    on_open on_close get_conn_id find insert erase
serve-IsLocal_example =
    serve-IsLocal small_library two_connect guarded (pos 5) (codes "/c") refl refl refl

broadcast-stops_example :
    (broadcast small_library ((pos 5, codes "/c") ∷ []) ≡ (pos 5 ∷ [], false))
    × (broadcast small_library
          ((pos 5, codes "/c") ∷ (pos 6, codes "/d") ∷ (pos 5, codes "/e") ∷ [])
        ≡ (pos 5 ∷ pos 6 ∷ [], true))
unfolding send_throws
broadcast-stops_example =
    broadcast-stops small_library ((pos 5, codes "/c") ∷ []) ((pos 5, codes "/e") ∷ []) (pos 6)
      (codes "/d") refl refl

abbrev all_well : Answers
all_well = record {
  set_options_throws = false;
  certificate_throws = false;
  key_throws = false;
  cipher_list_taken = true;
}

tls_init-not_old_example :
    let ctx = on_tls_init all_well (set_tls (codes "strict") (codes "c") (codes "k")) in
    ((rest : List ContextOption) × (ctx.options
        ≡ default_workarounds ∷ no_sslv2 ∷ no_sslv3 ∷ single_dh_use ∷ no_tlsv1 ∷ no_tlsv1_1 ∷ rest))
    × (ctx.private_key ≡ some (codes "k"))
    × (ctx.cipher_list ≡ some (get_cipher_suites mozilla_intermediate))
tls_init-not_old_example =
    tls_init-not_old all_well (codes "strict") (codes "c") (codes "k") refl refl

abbrev two_lines : Text
two_lines = 97 ∷ 10 ∷ 98 ∷ 99 ∷ 10 ∷ 100 ∷ []

write_all-new_example : IsLogged two_lines (write_all true two_lines new_stream)
write_all-new_example = write_all-new two_lines refl
