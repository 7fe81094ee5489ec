-- ===== src/Fleet/Worker.antt =====
-- The worker of the provisioning: `launchProvisioning`, `worker` and `makeProvisioning`
-- (AwsFleetProv/AwsFleetProv.cpp), from one wait to the next, and the calls that come back from the
-- MQTT service.
use shapeware.Base.{
  Bool, true, false, List, [], ◌∷◌, ◌++◌, Option, none, some, is_some, if◌then◌else◌,
}
use shapeware.Text.{Text, text_order}
use shapeware.StdMap.{find}
use shapeware.Mqtt.State.{ConnectionPars, Service, Outcome, returns}
use shapeware.Mqtt.Connection.{create, connect_with, disconnect, destroy}
use shapeware.Mqtt.Run.{Callback, run_callbacks}
use shapeware.Fleet.State.{
  Handler, Part, keys, register, Promises, Wait, for_accepted, for_rejected, for_sent, for_response,
  Phase, idle, connecting, waiting, Failure, cert_missing, key_missing, cannot_connect,
  cannot_subscribe, cannot_create_keys, cannot_register, sliced, calls_provisioned, calls_error,
  Settings, Fleet, no_topics, no_promises, Action, ◌>>◌, throw, modify, unless, call, catch,
  with_state,
}
use shapeware.Fleet.Messages.{on_connect_hndl, promises_of, log}
use shapeware.Fleet.Requests.{
  Bindings, Answers, go_to, subscribe_part, publish_part, unsubscribe_topic, unsubscribe_all,
}

-- `m_onError`, if it is set.
unfoldable pub report_error : Failure → Fleet → Fleet
report_error e f = elim f.on_error [ none ↦ f | some h ↦ log (calls_error h e) f ]

-- The end of `worker` by its `catch`.
unfoldable pub fail : Failure → Fleet → Fleet
unfolding report_error
fail e f = record (report_error e f) { phase = idle }

-- The `catch` of `makeProvisioning`, which throws what was caught or what its own calls throw.
unfoldable pub cancel : Answers → Failure → Action
unfolding unsubscribe_topic ◌>>◌ with_state throw
cancel a e = with_state λ f. do
  unsubscribe_topic a f.topics.topic1
  unsubscribe_topic a f.topics.topic2
  unsubscribe_topic a f.topics.topic3
  unsubscribe_topic a f.topics.topic4
  throw sliced

-- The callbacks of a wait; what one of them throws stays in the thread of the library.
abbrev pub during : List Callback → Service → Outcome
during cs s = let w = run_callbacks cs s in returns (w.service) w.events

-- The end of `worker` without an exception: `disconnect` and `destroy`. Both wait for the library;
-- here they are one step with the report that comes before them, with the callbacks of each wait as
-- arguments.
unfoldable pub close_session : Answers → Fleet → Fleet
unfolding go_to ◌>>◌ call
close_session a f =
    let closes : Action = (do
      call disconnect
      call (during a.in_disconnect)
      call (destroy (run_callbacks a.meanwhile) a.handle_left)
      go_to idle) in
    (closes f).1

unfoldable pub provisioned : Fleet → Fleet
provisioned f =
    let data' = record f.provisioning_data {
      is_provisioned = true;
      connection_pars = record f.provisioning_data.connection_pars {
        broker_address = f.settings.broker_addr;
        certificate = f.settings.official_certificate_pem_file_name;
        private_key = f.settings.official_private_pem_file_name;
      };
    } in
    let f' = record f { provisioning_data = data' } in
    elim f.on_provisioned [ none ↦ f' | some h ↦ log (calls_provisioned h data') f' ]

-- A part of `makeProvisioning` inside the `try` of both functions.
unfoldable pub guarded : Answers → Action → Fleet → Fleet
unfolding cancel fail catch
guarded a m f = let (r, f') = catch m (cancel a) f in elim r [ none ↦ f' | some e ↦ fail e f' ]

unfoldable pub cannot : Part → Failure
cannot keys = cannot_create_keys
cannot register = cannot_register

-- The worker goes on after a `get`, where the promise has a value.
unfoldable pub after_get : Bindings → Part → Wait → Bool → Answers → Fleet → Fleet
unfolding guarded subscribe_part publish_part unsubscribe_all close_session provisioned cannot go_to
    ◌>>◌ unless catch
after_get b keys for_accepted result a f =
    guarded a (do unless result cannot_subscribe; go_to (waiting keys for_rejected)) f
after_get b register for_accepted result a f = record f { phase = waiting register for_rejected }
after_get b keys for_rejected result a f =
    guarded a (do unless result cannot_subscribe; publish_part b keys a) f
after_get b register for_rejected result a f =
    let accepted : Bool = elim f.register_promises.accepted_subscribed [
      | none ↦ false
      | some r ↦ r
    ] in
    guarded a
      (do
        unless accepted cannot_subscribe
        unless result cannot_subscribe
        publish_part b register a)
      f
after_get b part for_sent result a f =
    guarded a (do unless result (cannot part); go_to (waiting part for_response)) f
after_get b keys for_response result a f =
    guarded a (do unless result cannot_create_keys; subscribe_part register a) f
after_get b register for_response result a f =
    let (r, f') = catch (do unless result cannot_register; unsubscribe_all a) (cancel a) f in
    elim r [ none ↦ close_session a (provisioned f') | some e ↦ fail e f' ]

abbrev pub promise_of : Wait → Promises → Option Bool
promise_of for_accepted p = p.accepted_subscribed
promise_of for_rejected p = p.rejected_subscribed
promise_of for_sent p = p.sent
promise_of for_response p = p.responded

-- After the wait for the connection.
unfoldable pub after_connect : Answers → Fleet → Fleet
unfolding guarded subscribe_part close_session report_error
after_connect a f =
    if f.connected
    then guarded a (subscribe_part keys a) f
    else close_session a (
        report_error cannot_connect
          (record f { provisioning_data = record f.provisioning_data { is_provisioned = false } }))

unfoldable pub worker_at : Bindings → Phase → Bool → Answers → Fleet → Option Fleet
unfolding after_get after_connect
worker_at b idle timed_out a f = none
worker_at b connecting timed_out a f =
    if f.connected
    then some (after_connect a f)
    else if timed_out
    then some (after_connect a f)
    else none
worker_at b (waiting part w) timed_out a f = elim (promise_of w (promises_of part f)) [
  | none ↦ none
  | some result ↦ some (after_get b part w result a f)
]

-- The next step of the worker; none where it waits or has returned.
unfoldable pub worker_step : Bindings → Bool → Answers → Fleet → Option Fleet
unfolding worker_at
worker_step b timed_out a f = worker_at b f.phase timed_out a f

abbrev pub file_exists : Text → Fleet → Bool
file_exists name f = is_some (find name f.files)

abbrev pub bootstrap_pars : Settings → ConnectionPars
bootstrap_pars s = record {
  broker_address = s.broker_addr;
  trust_store = [];
  certificate = s.bootstrap_certificate_pem_file_name;
  private_key = s.bootstrap_private_pem_file_name;
  user = [];
  password = [];
  enabled_ssl = true;
}

abbrev pub name_client : Text → Fleet → Fleet
name_client random f = record f { mqtt_client_id = f.settings.instance_name ++ b'_' ∷ random }

-- The variables of `makeProvisioning`.
abbrev pub new_exchange : Fleet → Fleet
new_exchange f = record f {
  topics = no_topics;
  keys_promises = no_promises;
  register_promises = no_promises;
}

-- `worker` up to its wait for the connection.
unfoldable pub open_session : Answers → Action
unfolding go_to ◌>>◌ call modify unless with_state
open_session a = with_state λ f. do
  unless (file_exists f.settings.bootstrap_certificate_pem_file_name f) cert_missing
  unless (file_exists f.settings.bootstrap_private_pem_file_name f) key_missing
  modify (name_client a.random)
  with_state (λ g. call (
      create g.mqtt_client_id (bootstrap_pars f.settings) a.created a.set_connected
        a.set_callbacks))
  call (connect_with (some on_connect_hndl) a.is_connected a.connects)
  modify new_exchange
  go_to connecting

unfoldable pub start : Answers → Fleet → Fleet
unfolding fail open_session
start a f =
    let (r, f') = open_session a (record f { connected = false }) in
    elim r [ none ↦ f' | some e ↦ fail e f' ]

-- `launchProvisioning`, where no worker runs: it joins one that does.
unfoldable pub launch_provisioning : Option Handler → Option Handler → Answers → Fleet → Fleet
unfolding start
launch_provisioning on_provisioned on_error a f =
    start a (record f { on_provisioned = on_provisioned; on_error = on_error })

unfoldable pub unregister_provisioning_handlers : Fleet → Fleet
unregister_provisioning_handlers f = record f { on_error = none; on_provisioned = none }
