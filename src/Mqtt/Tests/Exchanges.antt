-- ===== src/Mqtt/Tests/Exchanges.antt =====
-- Subscriptions and publications (MqttService/MqttService.cpp).
use shapeware.Base.{◌≡◌, refl, true, false, [], ◌∷◌, none, some, arith}
use shapeware.Base.Int.{pos}
use shapeware.Text.{codes, text_order}
use shapeware.StdMap.{find}
use shapeware.StdMap.Keys.{int_order}
use shapeware.Mqtt.State.{
  OnSubscribe, OnMessage, OnPublish, PublishContext, Service, default_settings, new, on_subscribe,
  on_unsubscribe, on_send, on_delivery, paho_send, started,
}
use shapeware.Mqtt.Subscription.{
  subscribe, unsubscribe, subscribe_succeeded, subscribe_failure, unsubscribe_succeeded,
  unsubscribe_failure,
}
use shapeware.Mqtt.Subscription.Laws.{subscribe_answered_once, unsubscribe_answered_once}
use shapeware.Mqtt.Publish.{publish, send_succeeded, send_failure, delivered}
use shapeware.Mqtt.Publish.Laws.{publish_answered, publish_over_limit}

abbrev ready : Service
ready = record new {
  client = true;
  mqtt_on_subscribe_handler_func = some 6;
  on_message_hndl_map = (codes "a", OnMessage.given 3) ∷ (codes "b", OnMessage.given 4) ∷ [];
}

subscribe_answered_once_example :
    let s' =
      (subscribe
        (codes "c")
        (pos 1)
        (OnSubscribe.given 2)
        OnMessage.obsolete
        (started (pos 9))
        ready).service in
    let good = subscribe_succeeded (some (pos 9, pos 1)) s' in
    let bad = subscribe_failure (some (pos 9)) s' in
    (good.events ≡ on_subscribe 2 (codes "c") (pos 1) true ∷ [])
    × (bad.events ≡ on_subscribe 2 (codes "c") (pos 0) false ∷ [])
    × ((subscribe_succeeded (some (pos 9, pos 1)) (good.service)).events ≡ [])
    × ((subscribe_succeeded (some (pos 9, pos 1)) (bad.service)).events ≡ [])
    × ((subscribe_failure (some (pos 9)) (good.service)).events ≡ [])
    × ((subscribe_failure (some (pos 9)) (bad.service)).events ≡ [])
    × (find (codes "c") (good.service).on_message_hndl_map ≡ some OnMessage.obsolete)
    × (find (codes "c") (bad.service).on_message_hndl_map ≡ some OnMessage.obsolete)
subscribe_answered_once_example =
    subscribe_answered_once ready (codes "c") (pos 1) (pos 9) refl tt 2 OnMessage.obsolete (pos 1)

unsubscribe_answered_once_example :
    let s' = (unsubscribe (codes "a") 2 (started (pos 9)) ready).service in
    let good = unsubscribe_succeeded (some (pos 9)) s' in
    let bad = unsubscribe_failure (some (pos 9)) s' in
    (find (codes "a") s'.on_message_hndl_map ≡ none)
    × (find (codes "b") s'.on_message_hndl_map ≡ find (codes "b") ready.on_message_hndl_map)
    × (good.events ≡ on_unsubscribe 2 (codes "a") true ∷ [])
    × (bad.events ≡ on_unsubscribe 2 (codes "a") false ∷ [])
    × ((unsubscribe_succeeded (some (pos 9)) (good.service)).events ≡ [])
    × ((unsubscribe_failure (some (pos 9)) (bad.service)).events ≡ [])
unsubscribe_answered_once_example =
    unsubscribe_answered_once ready (codes "a") (codes "b") (pos 9) 2 refl ((refl, tt), (tt, tt)) tt
      (ground arith)

publish_answered_example :
    let published =
      publish
        (codes "t")
        (pos 1)
        (codes "m")
        (OnPublish.given 7)
        (OnPublish.given 8)
        (started (pos 9))
        ready in
    let s' = published.service in
    let sent = send_succeeded (some (pos 9)) s' in
    let dropped = send_failure (some (pos 9)) s' in
    let arrived = delivered (pos 9) s' in
    (arrived.events ≡ on_delivery 8 (codes "t") (pos 1) true ∷ [])
    × (sent.events ≡ on_send 7 (codes "t") (pos 1) true ∷ [])
    × (dropped.events ≡ on_send 7 (codes "t") (pos 1) false ∷ [])
    × ((send_succeeded (some (pos 9)) (arrived.service)).events
        ≡ on_send 7 (codes "t") (pos 1) true ∷ [])
    × ((delivered (pos 9) (sent.service)).events ≡ [])
    × ((delivered (pos 9) (dropped.service)).events ≡ [])
publish_answered_example =
    publish_answered ready (codes "t") (codes "m") (pos 1) (pos 9) 7 8 refl tt (omega arith)

abbrev a_context : PublishContext
a_context = record {
  topic = codes "t";
  qos = pos 0;
  msg = [];
  on_send_hndl = OnPublish.traced;
  on_delivery_hndl = OnPublish.traced;
}

abbrev full : Service
full = record ready {
  settings = record default_settings { buffer_size = pos 0 };
  publish_context_map = (pos 1, a_context) ∷ [];
}

publish_over_limit_example :
    let published =
      publish
        (codes "t")
        (pos 1)
        (codes "m")
        OnPublish.traced
        OnPublish.traced
        (started (pos 9))
        full in
    (published.service ≡ full)
    × (published.events ≡ paho_send (codes "t") (pos 1) (codes "m") ∷ [])
    × (published.thrown ≡ none)
    × ((delivered (pos 9) (published.service)).events ≡ [])
    × ((send_succeeded (some (pos 9)) (published.service)).events ≡ [])
    × ((send_failure (some (pos 9)) (published.service)).events ≡ [])
unfolding find
publish_over_limit_example =
    publish_over_limit full (codes "t") (codes "m") (pos 1) (pos 9) OnPublish.traced
      OnPublish.traced refl (omega arith) refl
