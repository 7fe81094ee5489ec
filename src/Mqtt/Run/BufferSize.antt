-- ===== src/Mqtt/Run/BufferSize.antt =====
-- The buffer size of the MQTT service is what `modify` set, and it bounds the publications that wait
-- for an answer (MqttService/MqttService.cpp).
use shapeware.Base.{
  ℕ, suc, ◌≡◌, ◌≤◌, refl, ◌∙◌, subst, false, List, [], ◌∷◌, none, some, arith, length,
}
use shapeware.Base.Int.{ℤ, pos, size_of_int}
use shapeware.Text.{Text}
use shapeware.Mqtt.State.{Service, Handler, new}
use shapeware.Properties.{Properties}
use shapeware.Mqtt.Config.{activate, attach_interface, detach_interface}
use shapeware.Mqtt.Connection.{
  create, connect, connect_with, connect_with_both, disconnect, disconnect_with, destroy,
  connect_succeeded, connect_failure, reconnected, connection_lost, disconnect_succeeded,
  disconnect_failed,
}
use shapeware.Mqtt.Handlers.{
  register_message_handler, unregister_message_handler, register_message_str_handler,
  unregister_message_str_handler, register_on_connect_handler, unregister_on_connect_handler,
  register_on_subscribe_handler, unregister_on_subscribe_handler, register_on_disconnect_handler,
  unregister_on_disconnect_handler,
}
use shapeware.Mqtt.Subscription.{
  subscribe, subscribe_obsolete, unsubscribe, subscribe_succeeded, subscribe_failure,
  unsubscribe_succeeded, unsubscribe_failure,
}
use shapeware.Mqtt.Publish.{publish, send_succeeded, send_failure, delivered}
use shapeware.Mqtt.Receive.{message_arrived}
use shapeware.Mqtt.Run.{
  Callback, connect_ok, connect_error, subscribe_ok, send_ok, Registration, Request, modifies,
  destroys, creates, registers, Call, request, callback, perform_callback, run_callbacks, register,
  perform_request, perform, run,
}
use shapeware.Mqtt.Run.Invariant.{modifies_settings, KeepsSettings, run_activated-Inv}

abbrev buffer_size : Service → ℤ
buffer_size s = s.settings.buffer_size

callback-buffer_size :
    (c : Callback) (s : Service) → buffer_size (perform_callback c s).service ≡ buffer_size s
unfolding perform_callback connect_succeeded reconnected connection_lost disconnect_succeeded
    disconnect_failed connect_failure delivered message_arrived subscribe_succeeded
    subscribe_failure unsubscribe_succeeded unsubscribe_failure send_succeeded send_failure
callback-buffer_size connect_ok s = refl
callback-buffer_size (connect_error none) s = refl
callback-buffer_size (connect_error (some (code, msg))) s = refl
callback-buffer_size (subscribe_ok none) s = ground arith
callback-buffer_size (subscribe_ok (some (token, qos))) s = ground arith
callback-buffer_size (send_ok none) s = ground arith
callback-buffer_size (send_ok (some token)) s = ground arith
callback-buffer_size _ s = ground arith

run_callbacks-buffer_size :
    (cs : List Callback) (s : Service) → buffer_size (run_callbacks cs s).service ≡ buffer_size s
unfolding run_callbacks
run_callbacks-buffer_size [] s = refl
run_callbacks-buffer_size (c ∷ cs) s =
    run_callbacks-buffer_size cs (perform_callback c s).service ∙ callback-buffer_size c s

register-buffer_size : (r : Registration) (s : Service) → buffer_size (register r s) ≡ buffer_size s
unfolding register register_message_handler unregister_message_handler register_message_str_handler
    unregister_message_str_handler register_on_connect_handler unregister_on_connect_handler
    register_on_subscribe_handler unregister_on_subscribe_handler register_on_disconnect_handler
    unregister_on_disconnect_handler
register-buffer_size r s = ground arith

request-buffer_size :
    (r : Request) (s : Service)
    → modifies_settings (request r) ≡ false
    → buffer_size (perform_request r s).service ≡ buffer_size s
unfolding perform_request create connect connect_with connect_with_both disconnect disconnect_with
    destroy subscribe subscribe_obsolete unsubscribe publish attach_interface detach_interface
request-buffer_size (creates id cp r con cb) s n = ground arith
request-buffer_size (destroys cs handle) s n = run_callbacks-buffer_size cs _
request-buffer_size (registers r) s n = register-buffer_size r s
request-buffer_size (modifies props dir) s n = cc
request-buffer_size _ s n = ground arith

perform-buffer_size :
    (c : Call) (s : Service)
    → modifies_settings c ≡ false
    → buffer_size (perform c s).service ≡ buffer_size s
unfolding perform
perform-buffer_size (request r) s n = request-buffer_size r s n
perform-buffer_size (callback c) s n = callback-buffer_size c s

run-buffer_size :
    (cs : List Call) (s : Service) → KeepsSettings cs → buffer_size (run cs s) ≡ buffer_size s
unfolding run
run-buffer_size [] s n = refl
run-buffer_size (c ∷ cs) s n =
    run-buffer_size cs (perform c s).service n.1 ∙ perform-buffer_size c s n.0

-- On a new service that was given a launch service and then activated with a configuration whose
-- buffer size, or the default one where it names none, is `n`, not negative: after any requests and
-- callbacks, in any order and without a second `modify`, the map of publications, which has the
-- functions to call with the answers of the library, has at most `n + 1` entries.
pub run_activated-bounded :
    (launch : Handler) (props : Properties) (data_dir : Text) (cs : List Call) (n : ℕ)
    → let s = (activate props data_dir (attach_interface launch new).service).service in
      s.settings.buffer_size ≡ pos n
      → KeepsSettings cs
      → length (run cs s).publish_context_map ≤ suc n
run_activated-bounded launch props data_dir cs n e k =
    let s = (activate props data_dir (attach_interface launch new).service).service in
    subst (λ z. length (run cs s).publish_context_map ≤ suc (size_of_int z))
      (run-buffer_size cs s k ∙ e) (run_activated-Inv launch props data_dir cs k).publish_bounded
