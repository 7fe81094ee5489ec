-- ===== src/Fleet/Run/QuietCalls.antt =====
-- The calls of the MQTT service report nothing (AwsFleetProv/AwsFleetProv.cpp).
use shapeware.Base.{
  ◌≡◌, refl, Bool, true, false, List, [], ◌∷◌, ◌++◌, Option, none, some, arith, ◌==◌, is_some,
  subst,
}
use shapeware.Text.{Text, codes, text_order}
use shapeware.Mqtt.State.{on_connect, on_subscribe, on_send, on_message, Event as MqttEvent}
use shapeware.Mqtt.Run.{Callback, perform_callback}
use shapeware.Fleet.State.{
  Handler, IdentityParams, Part, keys, register, Promises, Phase, idle, connecting, waiting,
  json_parse_error, missing_or_bad_type, uncaught, set_twice, dangling, Fleet, Json, Action, ◌>>◌,
  throw, modify, unless,
}
use shapeware.Fleet.Messages.{
  on_connect_hndl, accepted_subscribed_hndl, rejected_subscribed_hndl, accepted_message_hndl,
  rejected_message_hndl, send_hndl, promises_of, with_promises, log, set_once,
  set_accepted_subscribed, set_rejected_subscribed, set_sent, set_responded, read_message,
  get_json_as_str, FileSystem, save_keys, keys_accepted, rejected, explore_provision_file,
  register_accepted,
}
use shapeware.Fleet.Requests.{Bindings}
use shapeware.Fleet.Run.{
  hear_connect, in_provisioning, caught_by_none, hear_message, hear_subscribe, hear_send, deliver,
  deliver_all, callback_step,
}
use shapeware.Fleet.Run.Delivery.{some_unless}
use shapeware.Fleet.Run.Quiet.{
  Quiet, Quiets, Quiet-refl, Quiet-trans, Quiet-log, Quiet-if, Quiets-then, Quiets-with_state,
  Quiets-throw, Quiets-modify, Quiets-unless, Quiets-get_json_as_str, Quiets-write_output,
  Quiets-open_output, Quiets-save_keys,
}

with_promises-Quiet : (part : Part) (p : Promises) (f : Fleet) → Quiet f (with_promises part p f)
with_promises-Quiet keys p f = record {
  on_provisioned = refl;
  on_error = refl;
  phase = refl;
  reports = refl;
}
with_promises-Quiet register p f = record {
  on_provisioned = refl;
  on_error = refl;
  phase = refl;
  reports = refl;
}

set_responded-Quiet : (part : Part) (r : Bool) (f : Fleet) → Quiet f (set_responded part r f)
unfolding set_responded
set_responded-Quiet part r f =
    Quiet-if (is_some (promises_of part f).responded) (Quiet-refl f)
      (with_promises-Quiet part (record (promises_of part f) { responded = some r }) f)

set_once-Quiet : (o : Option Bool) (g f : Fleet) → Quiet f g → Quiet f (set_once o g f)
unfolding set_once
set_once-Quiet none g f q = q
set_once-Quiet (some x) g f q = Quiet-log set_twice f refl

Quiets-explore : (json : Json) (par : IdentityParams) → Quiets (explore_provision_file json par)
unfolding explore_provision_file
Quiets-explore json par = record { quiet = λ f. ground arith }

Quiets-keys_accepted :
    (json : Json) (fs : FileSystem) (msg : Text) → Quiets (keys_accepted json fs msg)
unfolding keys_accepted
Quiets-keys_accepted json fs msg =
    elim (read_message json msg)
      as (λ o. Quiets (elim o as (λ x. Action) [
        | none ↦ throw json_parse_error
        | some doc ↦ get_json_as_str doc (codes "/certificateId") λ id. do
          modify (λ f. record f { certificate_id = id })
          get_json_as_str doc (codes "/certificatePem") λ cert.
              get_json_as_str doc (codes "/privateKey") λ key.
                get_json_as_str doc (codes "/certificateOwnershipToken") λ token. do
                  modify (λ f. record f { token = token })
                  save_keys fs msg cert key
                  modify (set_responded keys true)
      ])) [
        | none ↦ Quiets-throw json_parse_error
        | some doc ↦ Quiets-get_json_as_str doc (codes "/certificateId") _ (λ id.
            Quiets-then
              (Quiets-modify (λ f. record f { certificate_id = id })
                (λ f. record {
                  on_provisioned = refl;
                  on_error = refl;
                  phase = refl;
                  reports = refl;
                }))
              (Quiets-get_json_as_str doc (codes "/certificatePem") _ (λ cert.
                Quiets-get_json_as_str doc (codes "/privateKey") _ (λ key.
                  Quiets-get_json_as_str doc (codes "/certificateOwnershipToken") _ (λ token.
                    Quiets-then
                      (Quiets-modify (λ f. record f { token = token })
                        (λ f. record {
                          on_provisioned = refl;
                          on_error = refl;
                          phase = refl;
                          reports = refl;
                        }))
                      (Quiets-then (Quiets-save_keys fs msg cert key) (
                        Quiets-modify (set_responded keys true)
                          (set_responded-Quiet keys true))))))))
      ]

Quiets-rejected : (json : Json) (part : Part) (msg : Text) → Quiets (rejected json part msg)
unfolding rejected
Quiets-rejected json part msg =
    elim (read_message json msg)
      as (λ o. Quiets (elim o as (λ x. Action) [
        | none ↦ throw json_parse_error
        | some doc ↦ do
          unless (doc.number_at (codes "/statusCode")) missing_or_bad_type
          get_json_as_str doc (codes "/errorCode") λ code.
              get_json_as_str doc (codes "/errorMessage")
                λ message. modify (set_responded part false)
      ])) [
        | none ↦ Quiets-throw json_parse_error
        | some doc ↦ Quiets-then (Quiets-unless _ missing_or_bad_type) (
            Quiets-get_json_as_str doc (codes "/errorCode") _ (λ code.
              Quiets-get_json_as_str doc (codes "/errorMessage") _ (λ message.
                Quiets-modify (set_responded part false) (set_responded-Quiet part false))))
      ]

Quiets-register_accepted :
    (json : Json) (fs : FileSystem) (par : IdentityParams) (msg : Text)
    → Quiets (register_accepted json fs par msg)
unfolding register_accepted
Quiets-register_accepted json fs par msg = Quiets-with_state λ g.
    let n = g.settings.official_provision_file_name in
    Quiets-then (Quiets-open_output fs.opens n) (
      Quiets-then (Quiets-write_output n msg) (
        Quiets-then (Quiets-explore json par)
          (Quiets-modify (set_responded register true) (set_responded-Quiet register true))))

caught_by_none-Quiet : (m : Action) (f : Fleet) → Quiets m → Quiet f (caught_by_none m f)
unfolding caught_by_none
caught_by_none-Quiet m f q =
    let (r, g) = m f in
    elim r
        as (λ x.
          Quiet f g → Quiet f (elim x as (λ y. Fleet) [ none ↦ g | some e ↦ log (uncaught e) g ])) [
            | none ↦ λ w. w
            | some e ↦ λ w. Quiet-trans w (Quiet-log (uncaught e) g refl)
          ]
      (q.quiet f)

hear_message-Quiet :
    (b : Bindings) (fs : FileSystem) (h : Handler) (msg : Text) (f : Fleet)
    → Quiet f (hear_message b fs h msg f)
unfolding hear_message
hear_message-Quiet b fs h msg f =
    Quiet-if (h == accepted_message_hndl keys)
      (caught_by_none-Quiet _ f (Quiets-keys_accepted b.json fs msg))
      (Quiet-if (h == accepted_message_hndl register)
        (caught_by_none-Quiet _ f (Quiets-register_accepted b.json fs b.identity msg))
        (Quiet-if (h == rejected_message_hndl keys)
          (caught_by_none-Quiet _ f (Quiets-rejected b.json keys msg))
          (Quiet-if (h == rejected_message_hndl register)
            (caught_by_none-Quiet _ f (Quiets-rejected b.json register msg)) (Quiet-refl f))))

set_accepted-Quiet :
    (part : Part) (r : Bool) (f : Fleet) → Quiet f (set_accepted_subscribed part r f)
unfolding set_accepted_subscribed
set_accepted-Quiet part r f = set_once-Quiet _ _ f (with_promises-Quiet part _ f)

set_rejected-Quiet :
    (part : Part) (r : Bool) (f : Fleet) → Quiet f (set_rejected_subscribed part r f)
unfolding set_rejected_subscribed
set_rejected-Quiet part r f = set_once-Quiet _ _ f (with_promises-Quiet part _ f)

set_sent-Quiet : (part : Part) (r : Bool) (f : Fleet) → Quiet f (set_sent part r f)
unfolding set_sent
set_sent-Quiet part r f = set_once-Quiet _ _ f (with_promises-Quiet part _ f)

hear_subscribe-Quiet : (h : Handler) (r : Bool) (f : Fleet) → Quiet f (hear_subscribe h r f)
unfolding hear_subscribe
hear_subscribe-Quiet h r f =
    Quiet-if (h == accepted_subscribed_hndl keys) (set_accepted-Quiet keys r f) (
      Quiet-if (h == accepted_subscribed_hndl register) (set_accepted-Quiet register r f) (
        Quiet-if (h == rejected_subscribed_hndl keys) (set_rejected-Quiet keys r f) (
          Quiet-if (h == rejected_subscribed_hndl register) (set_rejected-Quiet register r f)
            (Quiet-refl f))))

hear_send-Quiet : (h : Handler) (r : Bool) (f : Fleet) → Quiet f (hear_send h r f)
unfolding hear_send
hear_send-Quiet h r f =
    Quiet-if (h == send_hndl keys) (set_sent-Quiet keys r f)
      (Quiet-if (h == send_hndl register) (set_sent-Quiet register r f) (Quiet-refl f))

in_provisioning-Quiet :
    (p : Phase) (g : Fleet → Fleet) (f : Fleet) → Quiet f (g f) → Quiet f (in_provisioning p g f)
unfolding in_provisioning
in_provisioning-Quiet (waiting part w) g f q = q
in_provisioning-Quiet connecting g f q = Quiet-log dangling f refl
in_provisioning-Quiet idle g f q = Quiet-log dangling f refl

hear_connect-Quiet : (p : Phase) (f : Fleet) → Quiet f (hear_connect p f)
unfolding hear_connect
hear_connect-Quiet idle f = Quiet-log dangling f refl
hear_connect-Quiet connecting f = record {
  on_provisioned = refl;
  on_error = refl;
  phase = refl;
  reports = refl;
}
hear_connect-Quiet (waiting part w) f = record {
  on_provisioned = refl;
  on_error = refl;
  phase = refl;
  reports = refl;
}

deliver-Quiet :
    (b : Bindings) (fs : FileSystem) (e : MqttEvent) (f : Fleet) → Quiet f (deliver b fs e f)
unfolding deliver
deliver-Quiet b fs (on_connect h) f =
    Quiet-if (h == on_connect_hndl) (hear_connect-Quiet f.phase f) (Quiet-refl f)
deliver-Quiet b fs (on_subscribe h topic qos r) f =
    in_provisioning-Quiet f.phase _ f (hear_subscribe-Quiet h r f)
deliver-Quiet b fs (on_send h topic qos r) f =
    in_provisioning-Quiet f.phase _ f (hear_send-Quiet h r f)
deliver-Quiet b fs (on_message h topic msg) f =
    in_provisioning-Quiet f.phase _ f (hear_message-Quiet b fs h msg f)
deliver-Quiet b fs _ f = Quiet-refl f

deliver_all-Quiet :
    (b : Bindings) (fs : FileSystem) (es : List MqttEvent) (f : Fleet)
    → Quiet f (deliver_all b fs es f)
unfolding deliver_all
deliver_all-Quiet b fs [] f = Quiet-refl f
deliver_all-Quiet b fs (e ∷ es) f =
    Quiet-trans (deliver-Quiet b fs e f) (deliver_all-Quiet b fs es (deliver b fs e f))

pub callback_step-Quiet :
    (b : Bindings) (fs : FileSystem) (c : Callback) {f g : Fleet}
    → callback_step b fs c f ≡ some g
    → Quiet f g
unfolding callback_step
callback_step-Quiet b fs c {f} h =
    let o = perform_callback c f.mqtt in
    let k : Fleet = record f { mqtt = o.service; mqtt_events = f.mqtt_events ++ o.events } in
    let same : Quiet f k = record {
      on_provisioned = refl;
      on_error = refl;
      phase = refl;
      reports = refl;
    } in
    subst (Quiet f) (some_unless f.blocked h) (Quiet-trans same (deliver_all-Quiet b fs o.events k))
