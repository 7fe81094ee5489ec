-- ===== src/Mqtt/Connection/Laws.antt =====
-- Creating, connecting and disconnecting the client (MqttService/MqttService.cpp).
use shapeware.Base.{◌≡◌, ◌≢◌, ◌⊎◌, Bool, true, false, [], ◌∷◌, Option, none, some, arith}
use shapeware.Text.{Text}
use shapeware.Mqtt.State.{
  Handler, ConnectionPars, SslOptions, Service, paho_create, paho_set_connected, paho_set_callbacks,
  paho_connect, on_disconnect, already_created, promise_already_satisfied, Return, success,
}
use shapeware.Mqtt.Connection.{
  Created, created, set_pars, create, connect_options, connect, disconnect, disconnect_succeeded,
  disconnect_failed,
}

abbrev pub has_ssl : Option SslOptions → Bool
has_ssl none = false
has_ssl (some o) = true

module _ (s : Service) (client_id : Text) (cp : ConnectionPars) where
  -- `create` without a client, when the library accepts each call, and then `connect`, while the
  -- library has no connection and accepts: the library is asked to create the client at the given
  -- address and then to connect with the user and the SSL choice that were given, where a given
  -- address and user that are not empty replace the configured ones.
  create_then_connect :
      s.client ≡ false
      → cp.broker_address ≢ []
      → cp.user ≢ []
      → let s' = create client_id cp created success success s in
        let s'' = connect false success s'.service in
        (s'.thrown ≡ none)
        × (s'.events
            ≡ paho_create cp.broker_address client_id s.settings.mqtt_persistence
                s.settings.buffered s.settings.buffer_size
              ∷ paho_set_connected
              ∷ paho_set_callbacks true
              ∷ [])
        × (s''.thrown ≡ none)
        × (s''.events ≡ paho_connect (connect_options (set_pars cp client_id s.settings)) ∷ [])
        × ((connect_options (set_pars cp client_id s.settings)).username ≡ cp.user)
        × (has_ssl (connect_options (set_pars cp client_id s.settings)).ssl ≡ cp.enabled_ssl)
  unfolding create connect connect_options
  create_then_connect n a u = ground arith

  -- A `create` without a client whose client the library creates, but whose setting of callbacks
  -- fails, throws and leaves the client created, so that every further `create` is refused.
  create-half_done :
      (con cb con' cb' : Return) (reply : Created)
      → s.client ≡ false
      → (con ≢ success) ⊎ (cb ≢ success)
      → let s' = create client_id cp created con cb s in
        (s'.thrown ≢ none)
        × ((s'.service).client ≡ true)
        × ((create client_id cp reply con' cb' s'.service).thrown ≡ some already_created)
  unfolding create
  create-half_done con cb con' cb' reply n h = ground arith

-- After `disconnect`, with a disconnect handler registered, the first answer of the library is
-- taken, and on success calls the handler; a second answer throws.
disconnect_answered_once :
    (s : Service) (h : Handler)
    → s.mqtt_on_disconnect_handler_func ≡ some h
    → let s' = (disconnect s).service in
      let good = disconnect_succeeded s' in
      let bad = disconnect_failed s' in
      (good.events ≡ on_disconnect h ∷ [])
      × (good.thrown ≡ none)
      × (bad.events ≡ [])
      × (bad.thrown ≡ none)
      × ((disconnect_succeeded good.service).thrown ≡ some promise_already_satisfied)
      × ((disconnect_failed good.service).thrown ≡ some promise_already_satisfied)
      × ((disconnect_succeeded bad.service).thrown ≡ some promise_already_satisfied)
unfolding disconnect disconnect_succeeded disconnect_failed
disconnect_answered_once s h e = ground arith
