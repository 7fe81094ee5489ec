-- ===== src/Mqtt/Run/Callbacks.antt =====
-- The invariant of the MQTT service, and its callbacks (MqttService/MqttService.cpp).
use shapeware.Base.{
  suc, ◌≤◌, ◌≡◌, sym, subst, refl, Bool, true, false, List, [], ◌∷◌, none, some, length, arith,
}
use shapeware.Base.Int.{pos, size_of_int}
use shapeware.Text.{text_order}
use shapeware.StdMap.{IsOrdered}
use shapeware.StdMap.Keys.{int_order}
use shapeware.StdMap.Laws.{erase-IsOrdered, length-erase-le, or_value}
use shapeware.Mqtt.State.{Service, new}
use shapeware.Mqtt.Connection.{
  connect_succeeded, connect_failure, reconnected, connection_lost, disconnect_succeeded,
  disconnect_failed,
}
use shapeware.Mqtt.Subscription.{
  subscribe_succeeded, subscribe_failure, unsubscribe_succeeded, unsubscribe_failure,
}
use shapeware.Mqtt.Publish.{send_succeeded, send_failure, delivered}
use shapeware.Mqtt.Receive.{message_arrived}
use shapeware.Mqtt.Run.{
  Callback, connect_ok, reconnect, lost, disconnect_ok, disconnect_error, connect_error,
  subscribe_ok, subscribe_error, unsubscribe_ok, unsubscribe_error, send_ok, send_error, delivery,
  message, perform_callback, run_callbacks,
}

pub record Inv (s : Service) : Type 0 where
  pub subscribe_ordered : IsOrdered s.subscribe_context_map
  pub unsubscribe_ordered : IsOrdered s.unsubscribe_context_map
  pub messages_ordered : IsOrdered s.on_message_hndl_map
  pub publish_ordered : IsOrdered s.publish_context_map
  pub publish_bounded : length s.publish_context_map ≤ suc (size_of_int s.settings.buffer_size)

pub new-Inv : Inv new
new-Inv = ground arith

-- The maps and the buffer size are those of the state before.
pub record Keeps (s t : Service) : Type 0 where
  pub subscribe_same : t.subscribe_context_map ≡ s.subscribe_context_map
  pub unsubscribe_same : t.unsubscribe_context_map ≡ s.unsubscribe_context_map
  pub messages_same : t.on_message_hndl_map ≡ s.on_message_hndl_map
  pub publish_same : t.publish_context_map ≡ s.publish_context_map
  pub size_same : t.settings.buffer_size ≡ s.settings.buffer_size

pub Keeps-Inv : {s t : Service} → Keeps s t → Inv s → Inv t
Keeps-Inv {s} {t} k v = record {
  subscribe_ordered = subst (λ m. IsOrdered m) (sym k.subscribe_same) v.subscribe_ordered;
  unsubscribe_ordered = subst (λ m. IsOrdered m) (sym k.unsubscribe_same) v.unsubscribe_ordered;
  messages_ordered = subst (λ m. IsOrdered m) (sym k.messages_same) v.messages_ordered;
  publish_ordered = subst (λ m. IsOrdered m) (sym k.publish_same) v.publish_ordered;
  publish_bounded = ground (arith, v.publish_bounded);
}

abbrev touches_maps : Callback → Bool
touches_maps (subscribe_ok r) = true
touches_maps (subscribe_error r) = true
touches_maps (unsubscribe_ok r) = true
touches_maps (unsubscribe_error r) = true
touches_maps (send_ok r) = true
touches_maps (send_error r) = true
touches_maps _ = false

connection-Keeps :
    (c : Callback) (s : Service) → touches_maps c ≡ false → Keeps s (perform_callback c s).service
unfolding perform_callback connect_succeeded reconnected connection_lost disconnect_succeeded
    disconnect_failed connect_failure delivered message_arrived
connection-Keeps connect_ok s h = ground arith
connection-Keeps (connect_error none) s h = ground arith
connection-Keeps (connect_error (some (code, msg))) s h = ground arith
connection-Keeps _ s h = ground arith

-- A callback keeps the invariant.
pub callback-Inv : (c : Callback) (s : Service) → Inv s → Inv (perform_callback c s).service
unfolding perform_callback subscribe_succeeded subscribe_failure unsubscribe_succeeded
    unsubscribe_failure send_succeeded send_failure
callback-Inv (subscribe_ok none) s v =
    ground (arith, erase-IsOrdered (pos 0) s.subscribe_context_map)
callback-Inv (subscribe_ok (some (token, qos))) s v =
    ground (arith, erase-IsOrdered token s.subscribe_context_map)
callback-Inv (subscribe_error r) s v =
    ground (arith, erase-IsOrdered (or_value r (pos 0)) s.subscribe_context_map)
callback-Inv (unsubscribe_ok r) s v =
    ground (arith, erase-IsOrdered (or_value r (pos 0)) s.unsubscribe_context_map)
callback-Inv (unsubscribe_error r) s v =
    ground (arith, erase-IsOrdered (or_value r (pos 0)) s.unsubscribe_context_map)
callback-Inv (send_ok none) s v = v
callback-Inv (send_ok (some token)) s v = ground (
  arith,
  erase-IsOrdered token s.publish_context_map,
  length-erase-le token s.publish_context_map,
)
callback-Inv (send_error r) s v = ground (
  arith,
  erase-IsOrdered (or_value r (pos 0)) s.publish_context_map,
  length-erase-le (or_value r (pos 0)) s.publish_context_map,
)
callback-Inv connect_ok s v = Keeps-Inv (connection-Keeps connect_ok s refl) v
callback-Inv reconnect s v = Keeps-Inv (connection-Keeps reconnect s refl) v
callback-Inv lost s v = Keeps-Inv (connection-Keeps lost s refl) v
callback-Inv disconnect_ok s v = Keeps-Inv (connection-Keeps disconnect_ok s refl) v
callback-Inv disconnect_error s v = Keeps-Inv (connection-Keeps disconnect_error s refl) v
callback-Inv (connect_error r) s v = Keeps-Inv (connection-Keeps (connect_error r) s refl) v
callback-Inv (delivery t) s v = Keeps-Inv (connection-Keeps (delivery t) s refl) v
callback-Inv (message b n m) s v = Keeps-Inv (connection-Keeps (message b n m) s refl) v

pub run_callbacks-Inv :
    (cs : List Callback) (s : Service) → Inv s → Inv (run_callbacks cs s).service
unfolding run_callbacks
run_callbacks-Inv [] s v = v
run_callbacks-Inv (c ∷ cs) s v = run_callbacks-Inv cs _ (callback-Inv c s v)
