-- ===== src/Fleet/Run/Delivery.antt =====
-- The functions that the worker gave to the MQTT service keep the invariant of a provisioning
-- (AwsFleetProv/AwsFleetProv.cpp).
use shapeware.Base.{
  ◌≡◌, refl, subst, Bool, true, false, List, [], ◌∷◌, ◌++◌, none, some, arith, if◌then◌else◌, ◌==◌,
}
use shapeware.Text.{Text, text_order}
use shapeware.Mqtt.State.{Event as MqttEvent}
use shapeware.Fleet.State.{
  Part, keys, register, Phase, idle, connecting, waiting, uncaught, dangling, Settings, Fleet,
  Action,
}
use shapeware.Fleet.Messages.{
  log, FileSystem, keys_accepted, rejected, register_accepted, set_accepted_subscribed,
  set_rejected_subscribed, set_sent,
}
use shapeware.Fleet.Requests.{Bindings}
use shapeware.Fleet.Run.Invariant.{Inv, Inv-log}
use shapeware.Fleet.Run.Saving.{Leads, Ends}
use shapeware.Mqtt.State.{Service, on_connect, on_subscribe, on_send, on_message}
use shapeware.Mqtt.Run.{Callback, perform_callback}
use shapeware.Fleet.State.{Handler}
use shapeware.Fleet.Messages.{
  on_connect_hndl, accepted_subscribed_hndl, rejected_subscribed_hndl, accepted_message_hndl,
  rejected_message_hndl, send_hndl,
}
use shapeware.Fleet.Run.{
  hear_connect, in_provisioning, caught_by_none, hear_message, hear_subscribe, hear_send, deliver,
  deliver_all, callback_step,
}
use shapeware.Fleet.Run.Replies.{
  Inv-set_once, Leads-keys_accepted, Leads-rejected, Leads-register_accepted,
}

pub some_unless : {f g : Fleet} (c : Bool) → (if c then none else some f) ≡ some g → f ≡ g
some_unless c h = ground arith

module _ (b : Bindings) (s : Settings) where
  caught_by_none-Inv :
      {f : Fleet} (m : Action)
      → Leads b s (Inv b s) m (Inv b s)
      → Inv b s f
      → Inv b s (caught_by_none m f)
  unfolding caught_by_none
  caught_by_none-Inv {f} m p v =
      let (r, g) = m f in
      elim r
          as (λ x.
            Ends b s (Inv b s) x g
            → Inv b s (elim x as (λ y. Fleet) [ none ↦ g | some e ↦ log (uncaught e) g ])) [
              | none ↦ λ w. w
              | some e ↦ λ w. Inv-log b s (uncaught e) tt w
            ]
        (p.leads f v)

  Inv-if : {f g : Fleet} (c : Bool) → Inv b s f → Inv b s g → Inv b s (if c then f else g)
  Inv-if true v w = v
  Inv-if false v w = w

  hear_message-Inv :
      {f : Fleet} (fs : FileSystem) (h : Handler) (msg : Text)
      → Inv b s f
      → Inv b s (hear_message b fs h msg f)
  unfolding hear_message
  hear_message-Inv fs h msg v =
      Inv-if (h == accepted_message_hndl keys)
        (caught_by_none-Inv (keys_accepted b.json fs msg) (Leads-keys_accepted b s fs msg) v)
        (Inv-if (h == accepted_message_hndl register)
          (caught_by_none-Inv (register_accepted b.json fs b.identity msg)
            (Leads-register_accepted b s fs msg) v)
          (Inv-if (h == rejected_message_hndl keys)
            (caught_by_none-Inv (rejected b.json keys msg) (Leads-rejected b s keys msg) v)
            (Inv-if (h == rejected_message_hndl register)
              (caught_by_none-Inv (rejected b.json register msg) (Leads-rejected b s register msg)
                v)
              v)))

  set_accepted-Inv :
      {f : Fleet} (part : Part) (r : Bool) → Inv b s f → Inv b s (set_accepted_subscribed part r f)
  unfolding set_accepted_subscribed
  set_accepted-Inv part r v = Inv-set_once b s part _ _ refl v

  set_rejected-Inv :
      {f : Fleet} (part : Part) (r : Bool) → Inv b s f → Inv b s (set_rejected_subscribed part r f)
  unfolding set_rejected_subscribed
  set_rejected-Inv part r v = Inv-set_once b s part _ _ refl v

  set_sent-Inv : {f : Fleet} (part : Part) (r : Bool) → Inv b s f → Inv b s (set_sent part r f)
  unfolding set_sent
  set_sent-Inv part r v = Inv-set_once b s part _ _ refl v

  hear_subscribe-Inv :
      {f : Fleet} (h : Handler) (r : Bool) → Inv b s f → Inv b s (hear_subscribe h r f)
  unfolding hear_subscribe
  hear_subscribe-Inv h r v =
      Inv-if (h == accepted_subscribed_hndl keys) (set_accepted-Inv keys r v) (
        Inv-if (h == accepted_subscribed_hndl register) (set_accepted-Inv register r v) (
          Inv-if (h == rejected_subscribed_hndl keys) (set_rejected-Inv keys r v)
            (Inv-if (h == rejected_subscribed_hndl register) (set_rejected-Inv register r v) v)))

  hear_send-Inv : {f : Fleet} (h : Handler) (r : Bool) → Inv b s f → Inv b s (hear_send h r f)
  unfolding hear_send
  hear_send-Inv h r v =
      Inv-if (h == send_hndl keys) (set_sent-Inv keys r v)
        (Inv-if (h == send_hndl register) (set_sent-Inv register r v) v)

  in_provisioning-Inv :
      {f : Fleet} (p : Phase) (g : Fleet → Fleet)
      → (Inv b s f → Inv b s (g f))
      → Inv b s f
      → Inv b s (in_provisioning p g f)
  unfolding in_provisioning
  in_provisioning-Inv (waiting part w) g k v = k v
  in_provisioning-Inv connecting g k v = Inv-log b s dangling tt v
  in_provisioning-Inv idle g k v = Inv-log b s dangling tt v

  hear_connect-Inv : {f : Fleet} (p : Phase) → Inv b s f → Inv b s (hear_connect p f)
  unfolding hear_connect
  hear_connect-Inv idle v = Inv-log b s dangling tt v
  hear_connect-Inv connecting v = record {
    settings = v.settings;
    keys_saved = v.keys_saved;
    registered = v.registered;
    phase = v.phase;
    told = v.told;
  }
  hear_connect-Inv (waiting part w) v = record {
    settings = v.settings;
    keys_saved = v.keys_saved;
    registered = v.registered;
    phase = v.phase;
    told = v.told;
  }

  deliver-Inv :
      {f : Fleet} (fs : FileSystem) (e : MqttEvent) → Inv b s f → Inv b s (deliver b fs e f)
  unfolding deliver
  deliver-Inv {f} fs (on_connect h) v = Inv-if (h == on_connect_hndl) (hear_connect-Inv f.phase v) v
  deliver-Inv {f} fs (on_subscribe h topic qos r) v =
      in_provisioning-Inv f.phase _ (hear_subscribe-Inv h r) v
  deliver-Inv {f} fs (on_send h topic qos r) v = in_provisioning-Inv f.phase _ (hear_send-Inv h r) v
  deliver-Inv {f} fs (on_message h topic msg) v =
      in_provisioning-Inv f.phase _ (hear_message-Inv fs h msg) v
  deliver-Inv fs _ v = v

  deliver_all-Inv :
      (fs : FileSystem) (es : List MqttEvent) {f : Fleet}
      → Inv b s f
      → Inv b s (deliver_all b fs es f)
  unfolding deliver_all
  deliver_all-Inv fs [] v = v
  deliver_all-Inv fs (e ∷ es) v = deliver_all-Inv fs es (deliver-Inv fs e v)

  Inv-mqtt :
      {f : Fleet} (m : Service) (es : List MqttEvent)
      → Inv b s f
      → Inv b s (record f { mqtt = m; mqtt_events = es })
  Inv-mqtt m es v = record {
    settings = v.settings;
    keys_saved = v.keys_saved;
    registered = v.registered;
    phase = v.phase;
    told = v.told;
  }

  pub callback_step-Inv :
      {f g : Fleet} (fs : FileSystem) (c : Callback)
      → callback_step b fs c f ≡ some g
      → Inv b s f
      → Inv b s g
  unfolding callback_step
  callback_step-Inv {f} fs c h v =
      let o = perform_callback c f.mqtt in
      subst (Inv b s) (some_unless f.blocked h)
        (deliver_all-Inv fs o.events (Inv-mqtt o.service (f.mqtt_events ++ o.events) v))
