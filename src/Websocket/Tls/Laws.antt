-- ===== src/Websocket/Tls/Laws.antt =====
-- What a context made by `on_tls_init` forbids (WebsocketCppService/WsServerTls.cpp).
use shapeware.Base.{
  ◌≡◌, refl, ◌∙◌, ap, Bool, true, false, ◌||◌, not, List, [], ◌∷◌, Option, none, some, arith,
  if◌then◌else◌, inl, inr, Bool-cases,
}
use shapeware.Text.{Text, codes, text_eq, is_empty}
use shapeware.Websocket.Tls.{
  mozilla_modern, mozilla_intermediate, ContextOption, default_workarounds, no_sslv2, no_sslv3,
  single_dh_use, no_tlsv1, no_tlsv1_1, no_tlsv1_2, mode_of, get_cipher_suites, get_protocols,
  mode_protocols, Answers, WsServerTls, set_tls, on_tls_init,
}

on_tls_init-fields :
    (a : Answers) (server : WsServerTls)
    → a.set_options_throws ≡ false
    → let ctx = on_tls_init a server in
      let unread = a.certificate_throws || a.key_throws in
      let ciphers = get_cipher_suites server.mode in
      (ctx.options ≡ get_protocols server.mode)
      × (ctx.private_key ≡ (if unread then none else some server.key))
      × (ctx.cipher_list ≡ (
          if unread || (not a.cipher_list_taken || is_empty ciphers) then none else some ciphers))
unfolding on_tls_init
on_tls_init-fields a server ok = ground arith

abbrev pub before_tls1_2 : List ContextOption
before_tls1_2 =
    default_workarounds ∷ no_sslv2 ∷ no_sslv3 ∷ single_dh_use ∷ no_tlsv1 ∷ no_tlsv1_1 ∷ []

mode_of-modern :
    (name : Text) → text_eq name (codes "modern") ≡ true → mode_of name ≡ mozilla_modern
unfolding mode_of
mode_of-modern name h = ground arith

mode_of-other :
    (name : Text)
    → text_eq name (codes "modern") ≡ false
    → text_eq name (codes "old") ≡ false
    → mode_of name ≡ mozilla_intermediate
unfolding mode_of
mode_of-other name h k = ground arith

no_list :
    (u t : Bool) (x y : Option Text)
    → (if u || (not t || true) then none else x) ≡ (if u || (not t || true) then none else y)
no_list u t x y = ground arith

-- For every name of a mode but `old`, also one that is not known: a context whose options could be
-- set forbids SSL and the first two versions of TLS. It has the key exactly if the certificate and
-- the key could be read, and the list of ciphers of the intermediate mode exactly if besides the
-- mode is not `modern` and the library takes the list; it then has no other list.
pub tls_init-not_old :
    (a : Answers) (name cert key : Text)
    → a.set_options_throws ≡ false
    → text_eq name (codes "old") ≡ false
    → let ctx = on_tls_init a (set_tls name cert key) in
      let unread = a.certificate_throws || a.key_throws in
      ((rest : List ContextOption) × (ctx.options
          ≡ default_workarounds ∷ no_sslv2 ∷ no_sslv3 ∷ single_dh_use ∷ no_tlsv1 ∷ no_tlsv1_1
            ∷ rest))
      × (ctx.private_key ≡ (if unread then none else some key))
      × (ctx.cipher_list ≡ (
          if unread || (not a.cipher_list_taken || text_eq name (codes "modern"))
          then none
          else some (get_cipher_suites mozilla_intermediate)))
unfolding set_tls get_protocols mode_protocols get_cipher_suites
tls_init-not_old a name cert key ok other =
    let server = set_tls name cert key in
    let (options, private, ciphers) = on_tls_init-fields a server ok in
    elim (Bool-cases (text_eq name (codes "modern"))) [
      | inl m ↦
          let mode = mode_of-modern name m in
          (
            (no_tlsv1_2 ∷ [], options ∙ ap get_protocols mode),
            private,
            ciphers
                ∙ rw (mode, m)
                    (no_list (a.certificate_throws || a.key_throws) a.cipher_list_taken (some [])
                      (some (get_cipher_suites mozilla_intermediate))),
          )
      | inr m ↦
          let mode = mode_of-other name m other in
          (([], options ∙ ap get_protocols mode), private, ciphers ∙ rw (mode, m) refl)
    ]
