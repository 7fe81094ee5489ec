-- ===== src/Mqtt/Run.antt =====
-- Any order of requests of the clients of the MQTT service and of callbacks of the Paho library
-- (MqttService/MqttService.cpp). A callback runs in a thread of the library; the mutexes of the
-- service and the atomic flag make each operation one step.
pub mod Callbacks
pub mod Invariant
pub mod BufferSize
use shapeware.Base.{Bool, true, false, List, [], ◌∷◌, ◌++◌, Option, none, some}
use shapeware.Base.Int.{ℤ}
use shapeware.Text.{Text}
use shapeware.Mqtt.State.{
  Handler, ConnectionPars, OnSubscribe, OnMessage, OnPublish, Service, Return, Started, Outcome,
  returns,
}
use shapeware.Properties.{Properties}
use shapeware.Mqtt.Config.{modify, attach_interface, detach_interface}
use shapeware.Mqtt.Connection.{
  Created, create, connect, connect_with, connect_with_both, disconnect, disconnect_with, destroy,
  connect_succeeded, connect_failure, reconnected, connection_lost, disconnect_succeeded,
  disconnect_failed,
}
use shapeware.Mqtt.Handlers.{
  register_message_handler, unregister_message_handler, register_message_str_handler,
  unregister_message_str_handler, register_on_connect_handler, unregister_on_connect_handler,
  register_on_subscribe_handler, unregister_on_subscribe_handler, register_on_disconnect_handler,
  unregister_on_disconnect_handler,
}
use shapeware.Mqtt.Subscription.{
  subscribe, subscribe_obsolete, unsubscribe, subscribe_succeeded, subscribe_failure,
  unsubscribe_succeeded, unsubscribe_failure,
}
use shapeware.Mqtt.Publish.{publish, send_succeeded, send_failure, delivered}
use shapeware.Mqtt.Receive.{message_arrived}

pub data Callback : Type 0 where
  connect_ok reconnect lost disconnect_ok disconnect_error : Callback
  connect_error : Option (ℤ × Option Text) → Callback
  subscribe_ok : Option (ℤ × ℤ) → Callback
  subscribe_error unsubscribe_ok unsubscribe_error send_ok send_error : Option ℤ → Callback
  delivery : ℤ → Callback
  message : Text → ℤ → Text → Callback

pub data Registration : Type 0 where
  message_handler message_str_handler on_connect_handler : Option Handler → Registration
  on_subscribe_handler on_disconnect_handler : Option Handler → Registration

pub data Request : Type 0 where
  creates : Text → ConnectionPars → Created → Return → Return → Request
  connects : Bool → Return → Request
  connects_with : Option Handler → Bool → Return → Request
  connects_with_both : Option Handler → Option Handler → Bool → Return → Request
  disconnects : Request
  disconnects_with : Option Handler → Request
  destroys : List Callback → Bool → Request  -- also `deactivate`
  subscribes : Text → ℤ → OnSubscribe → OnMessage → Started → Request
  subscribes_obsolete : Text → ℤ → Started → Request
  unsubscribes : Text → Handler → Started → Request
  publishes : Text → ℤ → Text → OnPublish → OnPublish → Started → Request
  registers : Registration → Request
  modifies : Properties → Text → Request  -- also `activate`
  attaches detaches : Handler → Request

unfoldable pub perform_callback : Callback → Service → Outcome
perform_callback connect_ok s = connect_succeeded s
perform_callback reconnect s = reconnected s
perform_callback lost s = connection_lost s
perform_callback disconnect_ok s = disconnect_succeeded s
perform_callback disconnect_error s = disconnect_failed s
perform_callback (connect_error r) s = connect_failure r s
perform_callback (subscribe_ok r) s = subscribe_succeeded r s
perform_callback (subscribe_error r) s = subscribe_failure r s
perform_callback (unsubscribe_ok r) s = unsubscribe_succeeded r s
perform_callback (unsubscribe_error r) s = unsubscribe_failure r s
perform_callback (send_ok r) s = send_succeeded r s
perform_callback (send_error r) s = send_failure r s
perform_callback (delivery token) s = delivered token s
perform_callback (message buffer len msg) s = message_arrived buffer len msg s

unfoldable pub run_callbacks : List Callback → Service → Outcome
run_callbacks [] s = returns s []
run_callbacks (c ∷ cs) s =
    let first = perform_callback c s in
    let rest = run_callbacks cs first.service in
    returns (rest.service) (first.events ++ rest.events)

unfoldable pub register : Registration → Service → Service
register (message_handler none) s = unregister_message_handler s
register (message_handler (some h)) s = register_message_handler h s
register (message_str_handler none) s = unregister_message_str_handler s
register (message_str_handler (some h)) s = register_message_str_handler h s
register (on_connect_handler none) s = unregister_on_connect_handler s
register (on_connect_handler (some h)) s = register_on_connect_handler h s
register (on_subscribe_handler none) s = unregister_on_subscribe_handler s
register (on_subscribe_handler (some h)) s = register_on_subscribe_handler h s
register (on_disconnect_handler none) s = unregister_on_disconnect_handler s
register (on_disconnect_handler (some h)) s = register_on_disconnect_handler h s

unfoldable pub perform_request : Request → Service → Outcome
perform_request (creates id cp r con cb) s = create id cp r con cb s
perform_request (connects up r) s = connect up r s
perform_request (connects_with h up r) s = connect_with h up r s
perform_request (connects_with_both h k up r) s = connect_with_both h k up r s
perform_request disconnects s = disconnect s
perform_request (disconnects_with h) s = disconnect_with h s
perform_request (destroys cs handle) s = destroy (run_callbacks cs) handle s
perform_request (subscribes topic qos f g r) s = subscribe topic qos f g r s
perform_request (subscribes_obsolete topic qos r) s = subscribe_obsolete topic qos r s
perform_request (unsubscribes topic h r) s = unsubscribe topic h r s
perform_request (publishes topic qos msg f g r) s = publish topic qos msg f g r s
perform_request (registers r) s = returns (register r s) []
perform_request (modifies props dir) s = modify props dir s
perform_request (attaches l) s = attach_interface l s
perform_request (detaches l) s = detach_interface l s

pub data Call : Type 0 where
  request : Request → Call
  callback : Callback → Call

unfoldable pub perform : Call → Service → Outcome
unfolding perform_request perform_callback
perform (request r) s = perform_request r s
perform (callback c) s = perform_callback c s

unfoldable pub run : List Call → Service → Service
run [] s = s
run (c ∷ cs) s = run cs (perform c s).service
