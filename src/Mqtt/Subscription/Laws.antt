-- ===== src/Mqtt/Subscription/Laws.antt =====
-- What a client of the MQTT service is told about its subscriptions (MqttService/MqttService.cpp).
use shapeware.Base.{◌≡◌, ◌≢◌, true, false, [], ◌∷◌, none, some, arith}
use shapeware.Base.Int.{ℤ, pos}
use shapeware.Text.{Text, text_order}
use shapeware.StdMap.{find, assign, IsOrdered}
use shapeware.StdMap.Keys.{int_order}
use shapeware.StdMap.Laws.{find-assign_self, find-erase_self, find-erase_ne, assign-IsOrdered}
use shapeware.Mqtt.State.{
  Handler, OnSubscribe, OnMessage, SubscribeContext, UnsubscribeContext, Service, on_subscribe,
  on_subscribe_registered, on_unsubscribe, started,
}
use shapeware.Mqtt.Subscription.{
  subscribe, subscribe_obsolete, unsubscribe, subscribe_succeeded, subscribe_failure,
  unsubscribe_succeeded, unsubscribe_failure,
}

module _ (s : Service) (topic : Text) (qos token : ℤ) (created : s.client ≡ true)
    (ordered : IsOrdered s.subscribe_context_map) where
  -- After an accepted `subscribe(topic, qos, onSubscribe, onMessage)` with a created client, whose
  -- map of contexts is ordered: the success of its token calls `onSubscribe` once with the topic,
  -- the granted qos and true, its failure calls it once with 0 and false; in both cases a second
  -- answer with the token, a success or a failure, calls nothing, and the message handler stays in place.
  pub subscribe_answered_once :
      (h : Handler) (on_msg : OnMessage) (granted : ℤ)
      → let s' = (subscribe topic qos (OnSubscribe.given h) on_msg (started token) s).service in
        let good = subscribe_succeeded (some (token, granted)) s' in
        let bad = subscribe_failure (some token) s' in
        (good.events ≡ on_subscribe h topic granted true ∷ [])
        × (bad.events ≡ on_subscribe h topic (pos 0) false ∷ [])
        × ((subscribe_succeeded (some (token, granted)) (good.service)).events ≡ [])
        × ((subscribe_succeeded (some (token, granted)) (bad.service)).events ≡ [])
        × ((subscribe_failure (some token) (good.service)).events ≡ [])
        × ((subscribe_failure (some token) (bad.service)).events ≡ [])
        × (find topic (good.service).on_message_hndl_map ≡ some on_msg)
        × (find topic (bad.service).on_message_hndl_map ≡ some on_msg)
  unfolding subscribe subscribe_succeeded subscribe_failure
  subscribe_answered_once h on_msg granted =
      let context : SubscribeContext = record {
        topic = topic;
        qos = qos;
        on_subscribe_hndl = OnSubscribe.given h;
      } in
      let here = find-assign_self token context s.subscribe_context_map in
      let gone =
        find-erase_self token (assign token context s.subscribe_context_map)
          (assign-IsOrdered token context s.subscribe_context_map ordered) in
      let kept = find-assign_self topic on_msg s.on_message_hndl_map in
      (
        ground (arith, here),
        ground (arith, here),
        ground (arith, here, gone),
        ground (arith, here, gone),
        ground (arith, here, gone),
        ground (arith, here, gone),
        ground (arith, here, kept),
        ground (arith, here, kept),
      )

  -- After an accepted obsolete `subscribe(topic, qos)` with a created client and a registered
  -- subscribe handler, the failure of its token tells that handler that the topic is subscribed,
  -- just as its success does.
  obsolete_failure_reports_true :
      (h : Handler) (granted : ℤ)
      → s.mqtt_on_subscribe_handler_func ≡ some h
      → let s' = (subscribe_obsolete topic qos (started token) s).service in
        ((subscribe_failure (some token) s').events ≡ on_subscribe_registered h topic true ∷ [])
        × ((subscribe_succeeded (some (token, granted)) s').events
            ≡ on_subscribe_registered h topic true ∷ [])
  unfolding subscribe_obsolete subscribe_succeeded subscribe_failure
  obsolete_failure_reports_true h granted e =
      let context : SubscribeContext = record {
        topic = topic;
        qos = qos;
        on_subscribe_hndl = OnSubscribe.obsolete;
      } in
      let here = find-assign_self token context s.subscribe_context_map in
      (ground (arith, here), ground (arith, here))

-- After an accepted `unsubscribe(topic, onUnsubscribe)` with a created client, whose maps are
-- ordered: no message handler is left for the topic and those of other filters stay; the success or
-- the failure of its token calls `onUnsubscribe` once with true or false, and a second answer with
-- the token calls nothing.
pub unsubscribe_answered_once :
    (s : Service) (topic other : Text) (token : ℤ) (h : Handler)
    → s.client ≡ true
    → IsOrdered s.on_message_hndl_map
    → IsOrdered s.unsubscribe_context_map
    → other ≢ topic
    → let s' = (unsubscribe topic h (started token) s).service in
      let good = unsubscribe_succeeded (some token) s' in
      let bad = unsubscribe_failure (some token) s' in
      (find topic s'.on_message_hndl_map ≡ none)
      × (find other s'.on_message_hndl_map ≡ find other s.on_message_hndl_map)
      × (good.events ≡ on_unsubscribe h topic true ∷ [])
      × (bad.events ≡ on_unsubscribe h topic false ∷ [])
      × ((unsubscribe_succeeded (some token) (good.service)).events ≡ [])
      × ((unsubscribe_failure (some token) (bad.service)).events ≡ [])
unfolding unsubscribe unsubscribe_succeeded unsubscribe_failure
unsubscribe_answered_once s topic other token h created msgs ordered ne =
    let context : UnsubscribeContext = record { topic = topic; on_unsubscribe_hndl = h } in
    let here = find-assign_self token context s.unsubscribe_context_map in
    let gone =
      find-erase_self token (assign token context s.unsubscribe_context_map)
        (assign-IsOrdered token context s.unsubscribe_context_map ordered) in
    (
      ground (arith, find-erase_self topic s.on_message_hndl_map msgs),
      ground (arith, find-erase_ne other topic s.on_message_hndl_map msgs ne),
      ground (arith, here),
      ground (arith, here),
      ground (arith, here, gone),
      ground (arith, here, gone),
    )
