-- ===== src/Mqtt/Run/Invariant.antt =====
-- What holds of the MQTT service after any calls (MqttService/MqttService.cpp).
use shapeware.Base.{◌≡◌, sym, subst, Bool, true, false, List, [], ◌∷◌, arith}
use shapeware.Base.Int.{ℤ}
use shapeware.Text.{Text, text_order}
use shapeware.StdMap.Keys.{int_order}
use shapeware.StdMap.Laws.{assign-IsOrdered, erase-IsOrdered, length-assign-le}
use shapeware.Mqtt.State.{
  ConnectionPars, OnSubscribe, OnMessage, OnPublish, Handler, PublishContext, SubscribeContext,
  UnsubscribeContext, Service, Started, started, refused, waiting, Return, new,
}
use shapeware.Properties.{Properties}
use shapeware.Mqtt.Config.{activate, attach_interface, detach_interface}
use shapeware.Mqtt.Connection.{
  Created, create, connect, connect_with, connect_with_both, disconnect, disconnect_with, destroy,
}
use shapeware.Mqtt.Handlers.{
  register_message_handler, unregister_message_handler, register_message_str_handler,
  unregister_message_str_handler, register_on_connect_handler, unregister_on_connect_handler,
  register_on_subscribe_handler, unregister_on_subscribe_handler, register_on_disconnect_handler,
  unregister_on_disconnect_handler,
}
use shapeware.Mqtt.Subscription.{subscribe, subscribe_obsolete, unsubscribe}
use shapeware.Mqtt.Publish.{publish}
use shapeware.Mqtt.Run.{
  Registration, Request, creates, connects, connects_with, connects_with_both, disconnects,
  disconnects_with, destroys, subscribes, subscribes_obsolete, unsubscribes, publishes, registers,
  modifies, attaches, detaches, Call, request, callback, register, perform_request, perform, run,
}
use shapeware.Mqtt.Run.Callbacks.{Inv, Keeps, Keeps-Inv, callback-Inv, run_callbacks-Inv}

create-Keeps :
    (id : Text) (cp : ConnectionPars) (r : Created) (con cb : Return) (s : Service)
    → Keeps s (create id cp r con cb s).service
unfolding create
create-Keeps id cp r con cb s = ground arith

connect-Keeps : (up : Bool) (r : Return) (s : Service) → Keeps s (connect up r s).service
unfolding connect
connect-Keeps up r s = ground arith

register-Keeps : (r : Registration) (s : Service) → Keeps s (register r s)
unfolding register register_message_handler unregister_message_handler register_message_str_handler
    unregister_message_str_handler register_on_connect_handler unregister_on_connect_handler
    register_on_subscribe_handler unregister_on_subscribe_handler register_on_disconnect_handler
    unregister_on_disconnect_handler
register-Keeps r s = ground arith

subscribe-Inv :
    (topic : Text) (qos : ℤ) (f : OnSubscribe) (g : OnMessage) (r : Started) (s : Service)
    → Inv s
    → Inv (subscribe topic qos f g r s).service
unfolding subscribe
subscribe-Inv topic qos f g (refused rc) s v = ground arith
subscribe-Inv topic qos f g (started token) s v =
    let context : SubscribeContext = record { topic = topic; qos = qos; on_subscribe_hndl = f } in
    ground (
      arith,
      assign-IsOrdered token context s.subscribe_context_map,
      assign-IsOrdered topic g s.on_message_hndl_map,
    )

unsubscribe-Inv :
    (topic : Text) (h : Handler) (r : Started) (s : Service)
    → Inv s
    → Inv (unsubscribe topic h r s).service
unfolding unsubscribe
unsubscribe-Inv topic h (refused rc) s v = ground arith
unsubscribe-Inv topic h (started token) s v =
    let context : UnsubscribeContext = record { topic = topic; on_unsubscribe_hndl = h } in
    ground (
      arith,
      assign-IsOrdered token context s.unsubscribe_context_map,
      erase-IsOrdered topic s.on_message_hndl_map,
    )

publish-Inv :
    (topic : Text) (qos : ℤ) (msg : Text) (f g : OnPublish) (r : Started) (s : Service)
    → Inv s
    → Inv (publish topic qos msg f g r s).service
unfolding publish
publish-Inv topic qos msg f g (refused rc) s v = ground arith
publish-Inv topic qos msg f g (started token) s v =
    let context : PublishContext = record {
      topic = topic;
      qos = qos;
      msg = msg;
      on_send_hndl = f;
      on_delivery_hndl = g;
    } in
    ground (
      arith,
      assign-IsOrdered token context s.publish_context_map,
      length-assign-le token context s.publish_context_map,
    )

subscribe_obsolete_lem :
    (topic : Text) (qos : ℤ) (r : Started) (s : Service)
    → subscribe_obsolete topic qos r s
      ≡ subscribe topic qos OnSubscribe.obsolete OnMessage.obsolete r s
unfolding subscribe_obsolete
subscribe_obsolete_lem topic qos r s = ground arith

-- The only request that sets the buffer size.
abbrev pub modifies_settings : Call → Bool
modifies_settings (request (modifies props dir)) = true
modifies_settings _ = false

request-Inv :
    (r : Request) (s : Service)
    → modifies_settings (request r) ≡ false
    → Inv s
    → Inv (perform_request r s).service
unfolding perform_request connect_with connect_with_both disconnect disconnect_with destroy
    subscribe_obsolete attach_interface detach_interface
request-Inv (creates id cp r con cb) s n v = Keeps-Inv (create-Keeps id cp r con cb s) v
request-Inv (connects up r) s n v = Keeps-Inv (connect-Keeps up r s) v
request-Inv (connects_with h up r) s n v = ground arith
request-Inv (connects_with_both h k up r) s n v = ground arith
request-Inv disconnects s n v = ground arith
request-Inv (disconnects_with h) s n v = ground arith
request-Inv (destroys cs handle) s n v =
    let w =
      run_callbacks-Inv cs (record s { disconnect_promise = waiting })
        (Keeps-Inv {s = s} (ground arith) v) in
    record {
      subscribe_ordered = w.subscribe_ordered;
      unsubscribe_ordered = w.unsubscribe_ordered;
      messages_ordered = w.messages_ordered;
      publish_ordered = w.publish_ordered;
      publish_bounded = w.publish_bounded;
    }
request-Inv (subscribes topic qos f g r) s n v = subscribe-Inv topic qos f g r s v
request-Inv (subscribes_obsolete topic qos r) s n v =
    subst (λ o. Inv o.service) (sym (subscribe_obsolete_lem topic qos r s))
      (subscribe-Inv topic qos OnSubscribe.obsolete OnMessage.obsolete r s v)
request-Inv (unsubscribes topic h r) s n v = unsubscribe-Inv topic h r s v
request-Inv (publishes topic qos msg f g r) s n v = publish-Inv topic qos msg f g r s v
request-Inv (registers r) s n v = Keeps-Inv (register-Keeps r s) v
request-Inv (modifies props dir) s n v = cc
request-Inv (attaches l) s n v = ground arith
request-Inv (detaches l) s n v = ground arith

perform-Inv :
    (c : Call) (s : Service) → modifies_settings c ≡ false → Inv s → Inv (perform c s).service
unfolding perform
perform-Inv (request r) s n v = request-Inv r s n v
perform-Inv (callback c) s n v = callback-Inv c s v

abbrev pub KeepsSettings : List Call → Type 0
KeepsSettings [] = Unit
KeepsSettings (c ∷ cs) = (modifies_settings c ≡ false) × KeepsSettings cs

pub run-Inv : (cs : List Call) (s : Service) → KeepsSettings cs → Inv s → Inv (run cs s)
unfolding run
run-Inv [] s n v = v
run-Inv (c ∷ cs) s n v = run-Inv cs (perform c s).service n.1 (perform-Inv c s n.0 v)

-- After any requests and callbacks, in any order and without a second `modify`, on a new service
-- that was given a launch service and then activated with any configuration, the invariant holds.
pub run_activated-Inv :
    (launch : Handler) (props : Properties) (data_dir : Text) (cs : List Call)
    → KeepsSettings cs
    → Inv (run cs (activate props data_dir (attach_interface launch new).service).service)
unfolding activate attach_interface
run_activated-Inv launch props data_dir cs n = run-Inv cs _ n (record {
  subscribe_ordered = tt;
  unsubscribe_ordered = tt;
  messages_ordered = tt;
  publish_ordered = tt;
  publish_bounded = omega arith;
})
