-- ===== src/Fleet/Requests.antt =====
-- What the worker of the provisioning asks of the MQTT service (AwsFleetProv/AwsFleetProv.cpp).
use shapeware.Base.{Bool, List, [], ◌∷◌, ◌++◌}
use shapeware.Base.Int.{pos}
use shapeware.Text.{Text, codes, text_order}
use shapeware.Mqtt.State.{Return, Started, OnSubscribe, OnMessage, OnPublish}
use shapeware.Mqtt.Connection.{Created}
use shapeware.Mqtt.Subscription.{subscribe, unsubscribe}
use shapeware.Mqtt.Publish.{publish}
use shapeware.Mqtt.Run.{Callback}
use shapeware.Fleet.State.{
  Handler, IdentityParams, Part, keys, register, for_accepted, for_sent, Phase, waiting, Settings,
  Topics, Fleet, Json, Action, ◌>>◌, modify, call, with_state,
}
use shapeware.Fleet.Messages.{
  accepted_subscribed_hndl, rejected_subscribed_hndl, accepted_message_hndl, rejected_message_hndl,
  send_hndl, delivered_hndl, unsubscribed_hndl,
}

-- What the component is bound to.
pub record Bindings : Type 0 where
  pub json : Json
  pub identity : IdentityParams
  pub app_name : Text

-- What the system and the Paho library answer in one step.
pub record Answers : Type 0 where
  pub random : Text  -- `std::to_string(rd())`
  pub created : Created
  pub set_connected : Return
  pub set_callbacks : Return
  pub is_connected : Bool
  pub connects : Return
  pub starts : Text → Started  -- to subscribe, unsubscribe or publish
  pub handle_left : Bool
  pub in_disconnect : List Callback  -- what Paho calls while `disconnect` waits
  pub meanwhile : List Callback  -- what Paho calls while `destroy` waits

-- Topics

keys_topic : Text
keys_topic = codes "$aws/certificates/create/json"

register_topic : Settings → Text
register_topic s =
    codes "$aws/provisioning-templates/" ++ (s.template_name ++ codes "/provision/json")

unfoldable pub topic_of : Part → Settings → Text
unfolding keys_topic register_topic
topic_of keys s = keys_topic
topic_of register s = register_topic s

unfoldable pub accepted_topic : Part → Settings → Text
unfolding topic_of
accepted_topic part s = topic_of part s ++ codes "/accepted"

unfoldable pub rejected_topic : Part → Settings → Text
unfolding topic_of
rejected_topic part s = topic_of part s ++ codes "/rejected"

abbrev pub with_accepted : Part → Text → Topics → Topics
with_accepted keys t ts = record ts { topic1 = t }
with_accepted register t ts = record ts { topic3 = t }

abbrev pub with_rejected : Part → Text → Topics → Topics
with_rejected keys t ts = record ts { topic2 = t }
with_rejected register t ts = record ts { topic4 = t }

unfoldable pub go_to : Phase → Action
unfolding modify
go_to p = modify (λ f. record f { phase = p })

unfoldable pub set_topics : (Topics → Topics) → Action
unfolding modify
set_topics g = modify (λ f. record f { topics = g f.topics })

-- A subscription of an exchange, with the functions for its answer and for its messages.
unfoldable pub subscribe_topic : Handler → Handler → Answers → Text → Action
unfolding call
subscribe_topic result_hndl message_hndl a t = call (
    subscribe t (pos 1) (OnSubscribe.given result_hndl) (OnMessage.given message_hndl) (a.starts t))

-- The two subscriptions of an exchange, up to the first wait.
unfoldable pub subscribe_part : Part → Answers → Action
unfolding accepted_topic rejected_topic go_to set_topics subscribe_topic ◌>>◌ with_state
subscribe_part part a = with_state λ f. do
  set_topics (with_accepted part (accepted_topic part f.settings))
  subscribe_topic (accepted_subscribed_hndl part) (accepted_message_hndl part) a
      (accepted_topic part f.settings)
  set_topics (with_rejected part (rejected_topic part f.settings))
  subscribe_topic (rejected_subscribed_hndl part) (rejected_message_hndl part) a
      (rejected_topic part f.settings)
  go_to (waiting part for_accepted)

-- What is published: `{}`, or the document of the registration.
unfoldable pub payload : Bindings → Part → Fleet → Text
payload b keys f = codes "{}"
payload b register f =
    let id = b.identity in
    b.json.write (
      (codes "/certificateOwnershipToken", f.token)
      ∷ (codes "/parameters/Vendor", id.vendor)
      ∷ (codes "/parameters/Product", id.product)
      ∷ (codes "/parameters/SerialNumber", id.serial_number)
      ∷ (codes "/parameters/GwType", id.gw_type)
      ∷ (codes "/parameters/Application", b.app_name)
      ∷ (codes "/parameters/DevStage", id.dev_stage)
      ∷ (codes "/parameters/CertId", f.certificate_id)
      ∷ (codes "/parameters/ThingName", f.thing_name)
      ∷ [])

abbrev pub dashed : Text → Text → Text
dashed a b = a ++ b'-' ∷ b

unfoldable pub name_thing : Bindings → Part → Fleet → Fleet
name_thing b keys f = f
name_thing b register f =
    let id = b.identity in
    record f {
      thing_name = codes "iqrfcloud-" ++ dashed id.vendor (dashed id.product id.serial_number);
    }

unfoldable pub publish_topic : Part → Answers → Text → Text → Action
unfolding call
publish_topic part a t msg = call (
    publish t (pos 1) msg (OnPublish.given (send_hndl part)) (OnPublish.given (delivered_hndl part))
      (a.starts t))

unfoldable pub publish_part : Bindings → Part → Answers → Action
unfolding topic_of payload name_thing go_to publish_topic ◌>>◌ modify with_state
publish_part b part a = do
  modify (name_thing b part)
  with_state (λ f. publish_topic part a (topic_of part f.settings) (payload b part f))
  go_to (waiting part for_sent)

unfoldable pub unsubscribe_topic : Answers → Text → Action
unfolding call
unsubscribe_topic a t = call (unsubscribe t unsubscribed_hndl (a.starts t))

-- The end of `makeProvisioning`.
unfoldable pub unsubscribe_all : Answers → Action
unfolding unsubscribe_topic ◌>>◌ with_state
unsubscribe_all a = with_state λ f. do
  unsubscribe_topic a f.topics.topic4
  unsubscribe_topic a f.topics.topic3
  unsubscribe_topic a f.topics.topic2
  unsubscribe_topic a f.topics.topic1
