-- ===== src/Mqtt/Publish.antt =====
-- Publications of the MQTT service, and the callbacks of the Paho library about them
-- (MqttService/MqttService.cpp). `m_publishDataMutex` makes each access to the map one step.
pub mod Laws
use shapeware.Base.{
  Bool, true, false, List, [], ◌∷◌, Option, none, some, if◌then◌else◌, ltb, length,
}
use shapeware.Base.Int.{ℤ, pos, size_of_int}
use shapeware.Text.{Text}
use shapeware.StdMap.{find, assign, erase}
use shapeware.StdMap.Keys.{int_order}
use shapeware.StdMap.Laws.{or_value}
use shapeware.Mqtt.State.{
  OnPublish, PublishContext, Service, Event, paho_send, on_send, on_delivery, not_created, Started,
  started, refused, Outcome, returns, throws,
}

add_publication : ℤ → PublishContext → Service → Service
add_publication token pc s =
    if ltb (size_of_int s.settings.buffer_size) (length s.publish_context_map)
    then s
    else record s { publish_context_map = assign token pc s.publish_context_map }

unfoldable pub publish : Text → ℤ → Text → OnPublish → OnPublish → Started → Service → Outcome
unfolding add_publication
publish topic qos msg on_send_hndl on_delivery_hndl reply s =
    let pc : PublishContext = record {
      topic = topic;
      qos = qos;
      msg = msg;
      on_send_hndl = on_send_hndl;
      on_delivery_hndl = on_delivery_hndl;
    } in
    if s.client
    then elim reply [
      | started token ↦ returns (add_publication token pc s) (paho_send topic qos msg ∷ [])
      | refused rc ↦ returns s (paho_send topic qos msg ∷ [])
    ]
    else throws s [] not_created

-- The `publish(topic, qos, msg)` whose functions only write a trace.
unfoldable pub publish_traced : Text → ℤ → Text → Started → Service → Outcome
unfolding publish
publish_traced topic qos msg reply s =
    publish topic qos msg OnPublish.traced OnPublish.traced reply s

abbrev pub send_call : PublishContext → Bool → List Event
send_call pc result = call pc.on_send_hndl
  where
    call : OnPublish → List Event
    call (OnPublish.given h) = on_send h pc.topic pc.qos result ∷ []
    call OnPublish.traced = []

abbrev pub delivery_call : PublishContext → List Event
delivery_call pc = call pc.on_delivery_hndl
  where
    call : OnPublish → List Event
    call (OnPublish.given h) = on_delivery h pc.topic pc.qos true ∷ []
    call OnPublish.traced = []

finish_send : ℤ → Bool → Service → Outcome
finish_send token result s = elim (find token s.publish_context_map) [
  | none ↦ returns s []
  | some pc ↦
      returns (record s { publish_context_map = erase token s.publish_context_map })
        (send_call pc result)
]

-- `onSend` with the token of the response, if there is one.
unfoldable pub send_succeeded : Option ℤ → Service → Outcome
unfolding finish_send
send_succeeded none s = returns s []
send_succeeded (some token) s = finish_send token true s

-- `onSendFailure`, which takes token 0 where there is no response.
unfoldable pub send_failure : Option ℤ → Service → Outcome
unfolding finish_send
send_failure response s = finish_send (or_value response (pos 0)) false s

-- `delivered`, which leaves the context in the map.
unfoldable pub delivered : ℤ → Service → Outcome
delivered token s = elim (find token s.publish_context_map) [
  | none ↦ returns s []
  | some pc ↦ returns s (delivery_call pc)
]
