-- ===== src/Mqtt/Publish/Laws.antt =====
-- What a client of the MQTT service is told about its publications (MqttService/MqttService.cpp).
use shapeware.Base.{suc, ◌≤◌, ◌≡◌, true, false, [], ◌∷◌, none, some, length, arith}
use shapeware.Base.Int.{ℤ, size_of_int}
use shapeware.Text.{Text}
use shapeware.StdMap.{find, assign, IsOrdered}
use shapeware.StdMap.Keys.{int_order}
use shapeware.StdMap.Laws.{find-assign_self, find-erase_self, assign-IsOrdered}
use shapeware.Mqtt.State.{
  Handler, OnPublish, PublishContext, Service, on_send, on_delivery, started, paho_send,
}
use shapeware.Mqtt.Publish.{publish, send_succeeded, send_failure, delivered}

-- After a `publish` with a created client that the library accepted, while the map of contexts is
-- ordered and has at most `m_bufferSize` entries: a delivery calls `onDelivery`, the end of the
-- sending calls `onSend` with its result, both with the topic and the qos of the publication; a
-- delivery that comes first leaves the sending to be reported, and one that comes after the end of
-- the sending calls nothing.
pub publish_answered :
    (s : Service) (topic msg : Text) (qos token : ℤ) (h k : Handler)
    → s.client ≡ true
    → IsOrdered s.publish_context_map
    → length s.publish_context_map ≤ size_of_int s.settings.buffer_size
    → let published =
        publish topic qos msg (OnPublish.given h) (OnPublish.given k) (started token) s in
      let s' = published.service in
      let sent = send_succeeded (some token) s' in
      let dropped = send_failure (some token) s' in
      let arrived = delivered token s' in
      (arrived.events ≡ on_delivery k topic qos true ∷ [])
      × (sent.events ≡ on_send h topic qos true ∷ [])
      × (dropped.events ≡ on_send h topic qos false ∷ [])
      × ((send_succeeded (some token) (arrived.service)).events ≡ on_send h topic qos true ∷ [])
      × ((delivered token (sent.service)).events ≡ [])
      × ((delivered token (dropped.service)).events ≡ [])
unfolding publish send_succeeded send_failure delivered
publish_answered s topic msg qos token h k created ordered room =
    let context : PublishContext = record {
      topic = topic;
      qos = qos;
      msg = msg;
      on_send_hndl = OnPublish.given h;
      on_delivery_hndl = OnPublish.given k;
    } in
    let here = find-assign_self token context s.publish_context_map in
    let gone =
      find-erase_self token (assign token context s.publish_context_map)
        (assign-IsOrdered token context s.publish_context_map ordered) in
    (
      ground (arith, here),
      ground (arith, here),
      ground (arith, here),
      ground (arith, here),
      ground (arith, here, gone),
      ground (arith, here, gone),
    )

-- A `publish` with a created client while the map of contexts has more than `m_bufferSize` entries,
-- none under the token that the library gives, is handed to the library and returns, but leaves the
-- service as it was: neither the delivery nor the end of the sending is reported to the publisher.
pub publish_over_limit :
    (s : Service) (topic msg : Text) (qos token : ℤ) (on_send_hndl on_delivery_hndl : OnPublish)
    → s.client ≡ true
    → suc (size_of_int s.settings.buffer_size) ≤ length s.publish_context_map
    → find token s.publish_context_map ≡ none
    → let published = publish topic qos msg on_send_hndl on_delivery_hndl (started token) s in
      (published.service ≡ s)
      × (published.events ≡ paho_send topic qos msg ∷ [])
      × (published.thrown ≡ none)
      × ((delivered token (published.service)).events ≡ [])
      × ((send_succeeded (some token) (published.service)).events ≡ [])
      × ((send_failure (some token) (published.service)).events ≡ [])
unfolding publish send_succeeded send_failure delivered
publish_over_limit s topic msg qos token f g created full fresh = ground arith
