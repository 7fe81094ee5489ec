-- ===== src/Mqtt/Connection.antt =====
-- The connection of the MQTT service: `create`, `connect`, `disconnect`, `destroy` and the
-- callbacks of the Paho library about the connection (MqttService/MqttService.cpp).
pub mod Laws
use shapeware.Base.{Bool, true, false, List, [], ◌∷◌, ◌++◌, Option, none, some, if◌then◌else◌}
use shapeware.Base.Int.{ℤ}
use shapeware.Text.{Text, is_empty, codes}
use shapeware.StdMap.Laws.{or_value}
use shapeware.Mqtt.State.{
  Handler, ConnectionPars, Settings, Promise, null, waiting, satisfied, Service, SslOptions,
  ConnectOptions, Event, paho_create, paho_set_connected, paho_set_callbacks, paho_connect,
  paho_disconnect, paho_destroy, on_connect, on_connect_failure, on_disconnect, Error,
  already_created, create_failed, set_connected_failed, set_callbacks_failed, not_created,
  connect_failed, promise_already_satisfied, undefined_null, Return, success, failure, Outcome,
  returns, throws,
}

-- The answer of `MQTTAsync_createWithOptions`; on a failure also whether it set the handle.
pub data Created : Type 0 where
  created : Created
  create_refused : Bool → ℤ → Created

-- `if (!given.empty()) member = given;`
abbrev pub or_kept : Text → Text → Text
or_kept given kept = if is_empty given then kept else given

abbrev pub set_pars : ConnectionPars → Text → Settings → Settings
set_pars cp client_id c = record c {
  mqtt_broker_addr = or_kept cp.broker_address c.mqtt_broker_addr;
  trust_store = or_kept cp.trust_store c.trust_store;
  key_store = or_kept cp.certificate c.key_store;
  private_key = or_kept cp.private_key c.private_key;
  mqtt_user = or_kept cp.user c.mqtt_user;
  mqtt_password = or_kept cp.password c.mqtt_password;
  mqtt_enabled_ssl = cp.enabled_ssl;
  mqtt_client_id = client_id;
}

-- The rest of `create`, after the client was created.
set_client_callbacks : Return → Return → Service → List Event → Outcome
set_client_callbacks (failure rc) callbacks s es =
    throws s (es ++ paho_set_connected ∷ []) set_connected_failed
set_client_callbacks success (failure rc) s es =
    throws s (es ++ paho_set_connected ∷ paho_set_callbacks true ∷ []) (set_callbacks_failed rc)
set_client_callbacks success success s es =
    returns s (es ++ paho_set_connected ∷ paho_set_callbacks true ∷ [])

unfoldable pub create : Text → ConnectionPars → Created → Return → Return → Service → Outcome
unfolding set_client_callbacks
create client_id cp reply set_connected set_callbacks s =
    let c = set_pars cp client_id s.settings in
    let call =
      paho_create c.mqtt_broker_addr client_id c.mqtt_persistence s.settings.buffered
        s.settings.buffer_size in
    if s.client then throws s [] already_created else elim reply [
      | create_refused handle rc ↦
          throws (record s { settings = c; client = handle }) (call ∷ []) (create_failed rc)
      | created ↦
          set_client_callbacks set_connected set_callbacks
            (record s { settings = c; client = true }) (call ∷ [])
    ]

abbrev pub non_empty : Text → Option Text
non_empty s = if is_empty s then none else some s

unfoldable pub connect_options : Settings → ConnectOptions
connect_options c = record {
  keep_alive_interval = c.mqtt_keep_alive_interval;
  clean_session = true;
  connect_timeout = c.mqtt_connect_timeout;
  username = c.mqtt_user;
  password = c.mqtt_password;
  automatic_reconnect = true;
  ssl =
      if c.mqtt_enabled_ssl
      then some (record {
        trust_store = non_empty c.trust_store;
        key_store = non_empty c.key_store;
        private_key = non_empty c.private_key;
        private_key_password = non_empty c.private_key_password;
        enabled_cipher_suites = non_empty c.enabled_cipher_suites;
        enable_server_cert_auth = c.enable_server_cert_auth;
      })
      else none;
}

-- `is_connected` is the answer of `MQTTAsync_isConnected`.
unfoldable pub connect : Bool → Return → Service → Outcome
connect is_connected reply s =
    let s' = record s { connected = false } in
    let call = paho_connect (connect_options s.settings) in
    if s.client
    then (if is_connected then returns s' [] else elim reply [
      | success ↦ returns s' (call ∷ [])
      | failure rc ↦ throws s' (call ∷ []) (connect_failed rc)
    ])
    else throws s' [] not_created

unfoldable pub connect_with : Option Handler → Bool → Return → Service → Outcome
unfolding connect
connect_with hndl is_connected reply s =
    connect is_connected reply (record s { mqtt_on_connect_handler_func = hndl })

unfoldable pub connect_with_both :
    Option Handler → Option Handler → Bool → Return → Service → Outcome
unfolding connect
connect_with_both hndl failure_hndl is_connected reply s = connect is_connected reply (record s {
  mqtt_on_connect_handler_func = hndl;
  mqtt_on_connect_failure_handler_func = failure_hndl;
})

-- `disconnect` up to its wait of at most five seconds for the promise; a failure to start and a
-- timeout are only traced, so what is left to the callbacks does not depend on them.
unfoldable pub disconnect : Service → Outcome
disconnect s = returns (record s { disconnect_promise = waiting }) (paho_disconnect ∷ [])

unfoldable pub disconnect_with : Option Handler → Service → Outcome
unfolding disconnect
disconnect_with hndl s = disconnect (record s { mqtt_on_disconnect_handler_func = hndl })

-- `destroy`, and `deactivate`, which does the same. `wait` is what the callbacks of the Paho
-- library do while `disconnect` waits; `handle` is whether `MQTTAsync_destroy` leaves a handle in
-- `m_client`.
unfoldable pub destroy : (Service → Outcome) → Bool → Service → Outcome
unfolding disconnect
destroy wait handle s =
    let started = disconnect s in
    let waited = wait started.service in
    returns (record (waited.service) { client = handle })
      (started.events ++ (waited.events ++ paho_set_callbacks false ∷ paho_destroy ∷ []))

unfoldable pub is_ready : Bool → Service → Bool
is_ready is_connected s = if s.client then is_connected else false

-- Callbacks

abbrev pub call_if {ℓ} : {H : Type ℓ} → Option H → (H → Event) → List Event
call_if none f = []
call_if (some h) f = f h ∷ []

-- `onConnect`: the response is only traced.
unfoldable pub connect_succeeded : Service → Outcome
connect_succeeded s = returns (record s { connected = true }) []

-- `onConnectFailure`: the code and the message of the response, each where it is there.
unfoldable pub connect_failure : Option (ℤ × Option Text) → Service → Outcome
connect_failure none s = returns (record s { connected = false }) []
connect_failure (some (code, message)) s =
    returns (record s { connected = false })
      (call_if s.mqtt_on_connect_failure_handler_func
        (λ h. on_connect_failure h code (or_value message (codes "unknown"))))

-- `connected`
unfoldable pub reconnected : Service → Outcome
reconnected s =
    returns (record s { connected = true })
      (call_if s.mqtt_on_connect_handler_func (λ h. on_connect h))

unfoldable pub connection_lost : Service → Outcome
connection_lost s = returns (record s { connected = false }) []

-- `m_disconnect_promise_uptr->set_value(result)`, and the calls that follow it
set_promise : Promise → Bool → List Event → Service → Outcome
set_promise null result es s = throws s [] undefined_null
set_promise waiting result es s = returns (record s { disconnect_promise = satisfied result }) es
set_promise (satisfied b) result es s = throws s [] promise_already_satisfied

unfoldable pub disconnect_succeeded : Service → Outcome
unfolding set_promise
disconnect_succeeded s =
    set_promise s.disconnect_promise true
      (call_if s.mqtt_on_disconnect_handler_func (λ h. on_disconnect h)) s

unfoldable pub disconnect_failed : Service → Outcome
unfolding set_promise
disconnect_failed s = set_promise s.disconnect_promise false [] s
