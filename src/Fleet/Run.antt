-- ===== src/Fleet/Run.antt =====
-- The provisioning and the MQTT service together: the steps of the worker and the callbacks of the
-- Paho library, in any order (AwsFleetProv/AwsFleetProv.cpp, MqttService/MqttService.cpp). While a
-- function of this component waits for `m_workMtx`, the thread of the library that called it is held
-- up; the model takes it that the library makes its calls from one thread.
pub mod Kept
pub mod Invariant
pub mod Progress
pub mod Saving
pub mod Replies
pub mod Delivery
pub mod Retry
pub mod Quiet
pub mod QuietCalls
pub mod Once
pub mod Reports
pub mod Moves
pub mod Saved
use shapeware.Base.{
  ℕ, ◌≡◌, Bool, true, false, List, [], ◌∷◌, ◌++◌, Option, none, some, if◌then◌else◌, ◌==◌,
}
use shapeware.Base.Int.{ℤ}
use shapeware.Text.{Text}
use shapeware.Mqtt.State.{on_connect, on_subscribe, on_send, on_message, Event as MqttEvent}
use shapeware.Mqtt.Run.{Callback, perform_callback}
use shapeware.Fleet.State.{
  Handler, Part, keys, register, Phase, idle, connecting, waiting, FleetEvent, uncaught, dangling,
  Fleet, Action,
}
use shapeware.Fleet.Messages.{
  on_connect_hndl, accepted_subscribed_hndl, rejected_subscribed_hndl, accepted_message_hndl,
  rejected_message_hndl, send_hndl, log, set_accepted_subscribed, set_rejected_subscribed, set_sent,
  FileSystem, keys_accepted, rejected, register_accepted,
}
use shapeware.Fleet.Requests.{Bindings, Answers}
use shapeware.Fleet.Worker.{worker_step}

-- `onConnect`. While `makeProvisioning` runs, the worker holds `m_workMtx`; once `worker` has
-- returned, the flag that the function captured is gone.
unfoldable pub hear_connect : Phase → Fleet → Fleet
hear_connect idle f = log dangling f
hear_connect connecting f = record f { connected = true }
hear_connect (waiting part w) f = record f { blocked = true }

-- A function that captured variables of `makeProvisioning`.
unfoldable pub in_provisioning : Phase → (Fleet → Fleet) → Fleet → Fleet
in_provisioning (waiting part w) g f = g f
in_provisioning connecting g f = log dangling f
in_provisioning idle g f = log dangling f

-- An exception of a function goes to the library that called it.
unfoldable pub caught_by_none : Action → Fleet → Fleet
caught_by_none m f = let (r, f') = m f in elim r [ none ↦ f' | some e ↦ log (uncaught e) f' ]

-- A call of `onMessage`, for each of the two exchanges.
unfoldable pub hear_message : Bindings → FileSystem → Handler → Text → Fleet → Fleet
unfolding caught_by_none
hear_message b fs h msg f =
    if h == accepted_message_hndl keys
    then caught_by_none (keys_accepted b.json fs msg) f
    else if h == accepted_message_hndl register
    then caught_by_none (register_accepted b.json fs b.identity msg) f
    else if h == rejected_message_hndl keys
    then caught_by_none (rejected b.json keys msg) f
    else if h == rejected_message_hndl register
    then caught_by_none (rejected b.json register msg) f
    else f

unfoldable pub hear_subscribe : Handler → Bool → Fleet → Fleet
hear_subscribe h result f =
    if h == accepted_subscribed_hndl keys
    then set_accepted_subscribed keys result f
    else if h == accepted_subscribed_hndl register
    then set_accepted_subscribed register result f
    else if h == rejected_subscribed_hndl keys
    then set_rejected_subscribed keys result f
    else if h == rejected_subscribed_hndl register
    then set_rejected_subscribed register result f
    else f

unfoldable pub hear_send : Handler → Bool → Fleet → Fleet
hear_send h result f =
    if h == send_hndl keys
    then set_sent keys result f
    else if h == send_hndl register
    then set_sent register result f
    else f

-- A call that the MQTT service makes; those to other clients are not of this component.
unfoldable pub deliver : Bindings → FileSystem → MqttEvent → Fleet → Fleet
unfolding hear_connect in_provisioning hear_message hear_subscribe hear_send
deliver b fs (on_connect h) f = if h == on_connect_hndl then hear_connect f.phase f else f
deliver b fs (on_subscribe h topic qos result) f =
    in_provisioning f.phase (hear_subscribe h result) f
deliver b fs (on_send h topic qos result) f = in_provisioning f.phase (hear_send h result) f
deliver b fs (on_message h topic msg) f = in_provisioning f.phase (hear_message b fs h msg) f
deliver b fs _ f = f

unfoldable pub deliver_all : Bindings → FileSystem → List MqttEvent → Fleet → Fleet
deliver_all b fs [] f = f
deliver_all b fs (e ∷ es) f = deliver_all b fs es (deliver b fs e f)

-- A callback of the library, by way of the MQTT service; none while the library is held up.
unfoldable pub callback_step : Bindings → FileSystem → Callback → Fleet → Option Fleet
callback_step b fs c f =
    let o = perform_callback c f.mqtt in
    if f.blocked
    then none
    else some (
        deliver_all b fs o.events
          (record f { mqtt = o.service; mqtt_events = f.mqtt_events ++ o.events }))

pub data Step (b : Bindings) (f : Fleet) : Fleet → Type 0 where
  works :
      (timed_out : Bool) (a : Answers) {f' : Fleet}
      → worker_step b timed_out a f ≡ some f'
      → Step b f f'
  hears :
      (fs : FileSystem) (c : Callback) {f' : Fleet} → callback_step b fs c f ≡ some f' → Step b f f'

pub data Reach (b : Bindings) (f : Fleet) : Fleet → Type 0 where
  here : Reach b f f
  next : {g h : Fleet} → Reach b f g → Step b g h → Reach b f h
