-- ===== src/Mqtt/Subscription.antt =====
-- Subscriptions of the MQTT service, and the callbacks of the Paho library about them
-- (MqttService/MqttService.cpp). `m_subscriptionDataMutex` makes each access to the maps one step.
-- The functions given by a client are taken to be callable, not empty.
pub mod Laws
use shapeware.Base.{Bool, true, false, List, [], ◌∷◌, Option, none, some, if◌then◌else◌}
use shapeware.Base.Int.{ℤ, pos}
use shapeware.Text.{Text}
use shapeware.StdMap.{find, assign, erase}
use shapeware.StdMap.Keys.{int_order}
use shapeware.Text.{text_order}
use shapeware.StdMap.Laws.{or_value}
use shapeware.Mqtt.State.{
  Handler, OnSubscribe, OnMessage, SubscribeContext, UnsubscribeContext, Service, Event,
  paho_subscribe, paho_unsubscribe, on_subscribe, on_subscribe_registered, on_unsubscribe,
  not_created, subscribe_failed, unsubscribe_failed, Started, started, refused, Outcome, returns,
  throws,
}
use shapeware.Mqtt.Connection.{call_if}

add_subscription : Text → ℤ → OnSubscribe → OnMessage → ℤ → Service → Service
add_subscription topic qos on_sub on_msg token s =
    let context : SubscribeContext = record {
      topic = topic;
      qos = qos;
      on_subscribe_hndl = on_sub;
    } in
    record s {
      subscribe_context_map = assign token context s.subscribe_context_map;
      on_message_hndl_map = assign topic on_msg s.on_message_hndl_map;
    }

unfoldable pub subscribe : Text → ℤ → OnSubscribe → OnMessage → Started → Service → Outcome
unfolding add_subscription
subscribe topic qos on_sub on_msg reply s =
    if s.client
    then elim reply [
      | started token ↦
          returns (add_subscription topic qos on_sub on_msg token s) (paho_subscribe topic qos ∷ [])
      | refused rc ↦ throws s (paho_subscribe topic qos ∷ []) (subscribe_failed rc)
    ]
    else throws s [] not_created

-- The obsolete `subscribe(topic, qos)`.
unfoldable pub subscribe_obsolete : Text → ℤ → Started → Service → Outcome
unfolding subscribe
subscribe_obsolete topic qos reply s =
    if s.client
    then subscribe topic qos OnSubscribe.obsolete OnMessage.obsolete reply s
    else throws s [] not_created

remove_subscription : Text → Handler → ℤ → Service → Service
remove_subscription topic on_unsub token s =
    let context : UnsubscribeContext = record { topic = topic; on_unsubscribe_hndl = on_unsub } in
    record s {
      on_message_hndl_map = erase topic s.on_message_hndl_map;
      unsubscribe_context_map = assign token context s.unsubscribe_context_map;
    }

unfoldable pub unsubscribe : Text → Handler → Started → Service → Outcome
unfolding remove_subscription
unsubscribe topic on_unsub reply s =
    if s.client
    then elim reply [
      | started token ↦
          returns (remove_subscription topic on_unsub token s) (paho_unsubscribe topic ∷ [])
      | refused rc ↦ throws s (paho_unsubscribe topic ∷ []) (unsubscribe_failed rc)
    ]
    else throws s [] not_created

-- `SubscribeContext::onSubscribe`; the lambda of the obsolete `subscribe` calls the handler that is
-- registered, if any, and reports true.
abbrev pub subscribe_call : Service → SubscribeContext → ℤ → Bool → List Event
subscribe_call s sc qos result = call sc.on_subscribe_hndl
  where
    call : OnSubscribe → List Event
    call (OnSubscribe.given h) = on_subscribe h sc.topic qos result ∷ []
    call OnSubscribe.obsolete =
        call_if s.mqtt_on_subscribe_handler_func (λ h. on_subscribe_registered h sc.topic true)

finish_subscribe : ℤ → ℤ → Bool → Service → Outcome
finish_subscribe token qos result s = elim (find token s.subscribe_context_map) [
  | none ↦ returns s []
  | some sc ↦
      returns (record s { subscribe_context_map = erase token s.subscribe_context_map })
        (subscribe_call s sc qos result)
]

-- `onSubscribe` with the token and the granted qos of the response, if there is one.
unfoldable pub subscribe_succeeded : Option (ℤ × ℤ) → Service → Outcome
unfolding finish_subscribe
subscribe_succeeded none s = finish_subscribe (pos 0) (pos 0) true s
subscribe_succeeded (some (token, qos)) s = finish_subscribe token qos true s

-- `onSubscribeFailure` with the token of the response, if there is one.
unfoldable pub subscribe_failure : Option ℤ → Service → Outcome
unfolding finish_subscribe
subscribe_failure response s = finish_subscribe (or_value response (pos 0)) (pos 0) false s

finish_unsubscribe : ℤ → Bool → Service → Outcome
finish_unsubscribe token result s = elim (find token s.unsubscribe_context_map) [
  | none ↦ returns s []
  | some sc ↦
      returns (record s { unsubscribe_context_map = erase token s.unsubscribe_context_map })
        (on_unsubscribe sc.on_unsubscribe_hndl sc.topic result ∷ [])
]

unfoldable pub unsubscribe_succeeded : Option ℤ → Service → Outcome
unfolding finish_unsubscribe
unsubscribe_succeeded response s = finish_unsubscribe (or_value response (pos 0)) true s

unfoldable pub unsubscribe_failure : Option ℤ → Service → Outcome
unfolding finish_unsubscribe
unsubscribe_failure response s = finish_unsubscribe (or_value response (pos 0)) false s
