-- ===== src/Websocket/Tls.antt =====
-- The server with TLS (WebsocketCppService/WsServerTls.cpp): its modes and the context that it makes
-- for a connection. A context of OpenSSL is known by what was set in it, and the answers of the
-- library are arguments.
pub mod Laws
use shapeware.Base.{Bool, true, false, List, [], ◌∷◌, ◌++◌, Option, none, some, if◌then◌else◌}
use shapeware.Text.{Text, codes, text_eq, is_empty}

pub data TlsMode : Type 0 where
  mozilla_modern mozilla_intermediate mozilla_old : TlsMode

-- The options of `asio::ssl::context` that are used.
pub data ContextOption : Type 0 where
  default_workarounds no_sslv2 no_sslv3 single_dh_use no_tlsv1 no_tlsv1_1 no_tlsv1_2 : ContextOption

-- The choice of the mode in `setTls`.
unfoldable pub mode_of : Text → TlsMode
mode_of mode_str =
    if text_eq mode_str (codes "modern")
    then mozilla_modern
    else if text_eq mode_str (codes "old")
    then mozilla_old
    else mozilla_intermediate

-- The names of the suites, each up to the colon.
unfoldable pub get_cipher_suites : TlsMode → Text
get_cipher_suites mozilla_modern = []
get_cipher_suites mozilla_intermediate =
    codes "ECDHE-ECDSA-AES128-GCM-SHA256:ECDHE-RSA-AES128-GCM-SHA256:"
    ++ (codes "ECDHE-ECDSA-AES256-GCM-SHA384:ECDHE-RSA-AES256-GCM-SHA384:"
        ++ (codes "ECDHE-ECDSA-CHACHA20-POLY1305:ECDHE-RSA-CHACHA20-POLY1305:"
            ++ (codes "DHE-RSA-AES128-GCM-SHA256:DHE-RSA-AES256-GCM-SHA384")))
get_cipher_suites mozilla_old =
    codes "ECDHE-ECDSA-AES128-GCM-SHA256:ECDHE-RSA-AES128-GCM-SHA256:"
    ++ (codes "ECDHE-ECDSA-AES256-GCM-SHA384:ECDHE-RSA-AES256-GCM-SHA384:"
        ++ (codes "ECDHE-ECDSA-CHACHA20-POLY1305:ECDHE-RSA-CHACHA20-POLY1305:"
            ++ (codes
                  "DHE-RSA-AES128-GCM-SHA256:DHE-RSA-AES256-GCM-SHA384:DHE-RSA-CHACHA20-POLY1305:"
                ++ (codes
                      "ECDHE-ECDSA-AES128-SHA256:ECDHE-RSA-AES128-SHA256:ECDHE-ECDSA-AES128-SHA:"
                    ++ (codes
                          "ECDHE-RSA-AES128-SHA:ECDHE-ECDSA-AES256-SHA384:ECDHE-RSA-AES256-SHA384:"
                        ++ (codes
                              "ECDHE-ECDSA-AES256-SHA:ECDHE-RSA-AES256-SHA:DHE-RSA-AES128-SHA256:"
                            ++ (codes
                                  "DHE-RSA-AES256-SHA256:AES128-GCM-SHA256:AES256-GCM-SHA384:AES128-SHA256:"
                                ++ (codes "AES256-SHA256:AES128-SHA:AES256-SHA:DES-CBC3-SHA"))))))))

unfoldable pub mode_protocols : TlsMode → List ContextOption
mode_protocols mozilla_modern = no_tlsv1 ∷ no_tlsv1_1 ∷ no_tlsv1_2 ∷ []
mode_protocols mozilla_intermediate = no_tlsv1 ∷ no_tlsv1_1 ∷ []
mode_protocols mozilla_old = []

unfoldable pub get_protocols : TlsMode → List ContextOption
unfolding mode_protocols
get_protocols mode =
    (default_workarounds ∷ no_sslv2 ∷ no_sslv3 ∷ single_dh_use ∷ []) ++ mode_protocols mode

pub record Context : Type 0 where
  pub options : List ContextOption
  pub certificate_chain : Option Text
  pub private_key : Option Text
  pub cipher_list : Option Text

-- What the library answers to the calls of `on_tls_init`: which throw, and whether the list of
-- ciphers is taken.
pub record Answers : Type 0 where
  pub set_options_throws : Bool
  pub certificate_throws : Bool
  pub key_throws : Bool
  pub cipher_list_taken : Bool

pub record WsServerTls : Type 0 where
  pub mode : TlsMode
  pub cert : Text
  pub key : Text

unfoldable pub set_tls : Text → Text → Text → WsServerTls
unfolding mode_of
set_tls mode_str cert key = record { mode = mode_of mode_str; cert = cert; key = key }

-- The last part of `on_tls_init`.
set_ciphers : Bool → Text → Context → Context
set_ciphers taken ciphers ctx =
    if is_empty ciphers
    then ctx
    else if taken
    then record ctx { cipher_list = some ciphers }
    else ctx

-- `on_tls_init`: an exception ends what is set, and the context is returned as it is then.
unfoldable pub on_tls_init : Answers → WsServerTls → Context
unfolding set_ciphers
on_tls_init a server =
    let fresh : Context = record {
      options = [];
      certificate_chain = none;
      private_key = none;
      cipher_list = none;
    } in
    let limited = record fresh { options = get_protocols server.mode } in
    let certified = record limited { certificate_chain = some server.cert } in
    let keyed = record certified { private_key = some server.key } in
    if a.set_options_throws
    then fresh
    else if a.certificate_throws
    then limited
    else if a.key_throws
    then certified
    else set_ciphers a.cipher_list_taken (get_cipher_suites server.mode) keyed
