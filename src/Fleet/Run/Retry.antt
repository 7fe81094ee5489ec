-- ===== src/Fleet/Run/Retry.antt =====
-- A provisioning that the cloud refuses (AwsFleetProv/AwsFleetProv.cpp).
use shapeware.Base.{
  ◌≡◌, refl, ◌∙◌, sym, subst, Bool, true, false, [], ◌∷◌, ◌++◌, Option, none, some, arith, is_some,
  ap,
}
use shapeware.Text.{Text, text_order}
use shapeware.StdMap.{find}
use shapeware.Mqtt.State.{already_created}
use shapeware.Mqtt.Connection.{create}
use shapeware.Mqtt.Subscription.{unsubscribe}
use shapeware.Fleet.State.{
  Handler, Part, keys, register, for_response, idle, Phase, waiting, Failure, mqtt_failure, sliced,
  calls_error, Fleet, Action, ◌>>◌, throw, with_state, call, unless, catch, modify,
  cannot_create_keys, cannot_register,
}
use shapeware.Fleet.Messages.{promises_of}
use shapeware.Fleet.Requests.{Bindings, Answers, unsubscribe_topic}
use shapeware.Fleet.Worker.{
  cancel, guarded, close_session, provisioned, fail, report_error, cannot, after_get, worker_at,
  worker_step, file_exists, start, open_session, launch_provisioning,
}
use shapeware.Fleet.Run.Kept.{Keeps-cancel}
use shapeware.Fleet.Run.Progress.{cancel-Throws}

-- The client of the MQTT service stays.
record KeepsClient (m : Action) : Type 0 where
  client : (f : Fleet) → ((m f).1.mqtt).client ≡ f.mqtt.client

KeepsClient-then : {m k : Action} → KeepsClient m → KeepsClient k → KeepsClient (m >> k)
unfolding ◌>>◌
KeepsClient-then {m} {k} p q = record {
  client = λ f.
      let (r, g) = m f in
      elim r
          as (λ x.
            g.mqtt.client ≡ f.mqtt.client
            → ((elim x as (λ y. Option Failure × Fleet) [
              | none ↦ k g
              | some e ↦ (some e, g)
            ]).1.mqtt
              ).client
              ≡ f.mqtt.client) [ none ↦ λ w. q.client g ∙ w | some e ↦ λ w. w ]
        (p.client f);
}

unsubscribe_topic-KeepsClient : (a : Answers) (t : Text) → KeepsClient (unsubscribe_topic a t)
unfolding unsubscribe_topic call unsubscribe
unsubscribe_topic-KeepsClient a t = record { client = λ f. ground arith }

KeepsClient-with_state :
    {k : Fleet → Action} → ((g : Fleet) → KeepsClient (k g)) → KeepsClient (with_state k)
unfolding with_state
KeepsClient-with_state p = record { client = λ f. (p f).client f }

throw-KeepsClient : (e : Failure) → KeepsClient (throw e)
unfolding throw
throw-KeepsClient e = record { client = λ f. refl }

cancel-KeepsClient : (a : Answers) (e : Failure) → KeepsClient (cancel a e)
unfolding cancel
cancel-KeepsClient a e = KeepsClient-with_state λ g.
    let drop = unsubscribe_topic-KeepsClient a in
    KeepsClient-then (drop g.topics.topic1) (
      KeepsClient-then (drop g.topics.topic2) (
        KeepsClient-then (drop g.topics.topic3)
          (KeepsClient-then (drop g.topics.topic4) (throw-KeepsClient sliced))))

-- A launch where the client of the MQTT service exists.
launch-refused :
    (f : Fleet) (a : Answers) (h : Handler) (on_provisioned : Option Handler)
    → f.mqtt.client ≡ true
    → file_exists f.settings.bootstrap_certificate_pem_file_name f ≡ true
    → file_exists f.settings.bootstrap_private_pem_file_name f ≡ true
    → let g = launch_provisioning on_provisioned (some h) a f in
      (g.phase ≡ idle) × (g.events ≡ f.events ++ calls_error h (mqtt_failure already_created) ∷ [])
unfolding launch_provisioning start open_session with_state unless ◌>>◌ modify call create fail
    report_error
launch-refused f a h op c e k = ground (arith, c, e, k)

ends_by :
    (x : Option Failure) (e : Failure) (g : Fleet) (k : Fleet)
    → x ≡ some e
    → elim x as (λ y. Fleet) [ none ↦ k | some d ↦ fail d g ] ≡ fail e g
ends_by none e g k t = cc
ends_by (some d) e g k t = ap (λ y. elim y as (λ z. Fleet) [ none ↦ k | some d ↦ fail d g ]) t

refused_get :
    (b : Bindings) (part : Part) (a : Answers) (f : Fleet) (e : Failure)
    → (cancel a (cannot part) f).0 ≡ some e
    → after_get b part for_response false a f ≡ fail e (cancel a (cannot part) f).1
unfolding after_get guarded cannot catch unless ◌>>◌
refused_get b keys a f e t = let (x, g) = cancel a cannot_create_keys f in ends_by x e g g t
refused_get b register a f e t =
    let (x, g) = cancel a cannot_register f in ends_by x e g (close_session a (provisioned g)) t

refused_at :
    (b : Bindings) (p : Phase) (part : Part) (timed_out : Bool) (a : Answers) (f : Fleet)
    → p ≡ waiting part for_response
    → (promises_of part f).responded ≡ some false
    → worker_at b p timed_out a f ≡ some (after_get b part for_response false a f)
unfolding worker_at
refused_at b p part timed_out a f e r =
    subst (λ q. worker_at b q timed_out a f ≡ some (after_get b part for_response false a f))
      (sym e)
      (ap
        (λ o. elim o as (λ x. Option Fleet) [
          | none ↦ none
          | some d ↦ some (after_get b part for_response d a f)
        ])
        r)

-- The worker after a rejected answer.
refused-idle :
    (b : Bindings) (f : Fleet) (part : Part) (timed_out : Bool) (a : Answers)
    → f.phase ≡ waiting part for_response
    → (promises_of part f).responded ≡ some false
    → (e : Failure) × (let g = fail e (cancel a (cannot part) f).1 in
        worker_step b timed_out a f ≡ some g)
unfolding worker_step
refused-idle b f part timed_out a p r =
    let (e, t) = (cancel-Throws a (cannot part)).throws f in
    (e, refused_at b f.phase part timed_out a f p r ∙ ap (λ x. some x) (refused_get b part a f e t))

fail-same :
    (e : Failure) (f : Fleet)
    → ((fail e f).phase ≡ idle)
      × (((fail e f).mqtt ≡ f.mqtt)
          × (((fail e f).settings ≡ f.settings) × ((fail e f).files ≡ f.files)))
unfolding fail report_error
fail-same e f = ground arith

-- While the worker waits for the response to either request and the client of the MQTT service
-- exists: once the rejected message was heard, the worker's step ends it, and the client stays.
-- So where the bootstrap files are there, the next launch with an error handler ends at once too,
-- and tells that the client was already created.
pub refused-blocks_retry :
    (b : Bindings) (f : Fleet) (part : Part) (timed_out : Bool) (a a' : Answers)
    (on_provisioned : Option Handler) (h : Handler)
    → f.phase ≡ waiting part for_response
    → (promises_of part f).responded ≡ some false
    → f.mqtt.client ≡ true
    → file_exists f.settings.bootstrap_certificate_pem_file_name f ≡ true
    → file_exists f.settings.bootstrap_private_pem_file_name f ≡ true
    → (g : Fleet) × ((worker_step b timed_out a f ≡ some g)
        × ((g.phase ≡ idle)
            × (let k = launch_provisioning on_provisioned (some h) a' g in
                (k.phase ≡ idle)
                × (k.events ≡ g.events ++ calls_error h (mqtt_failure already_created) ∷ []))))
refused-blocks_retry b f part timed_out a a' op h p r c x y =
    let (e, t) = refused-idle b f part timed_out a p r in
    let k = (cancel a (cannot part) f).1 in
    let g = fail e k in
    let kept = (Keeps-cancel {Q = λ p. Unit} a (cannot part)).keeps f in
    let same = fail-same e k in
    let created =
      ap (λ m. m.client) same.1.0 ∙ ((cancel-KeepsClient a (cannot part)).client f ∙ c) in
    let settings = same.1.1.0 ∙ kept.settings in
    let files = same.1.1.1 ∙ kept.files in
    (
      g,
      (
        t,
        (
          same.0,
          launch-refused g a' h op created
              (subst (λ w. is_some (find w.bootstrap_certificate_pem_file_name g.files) ≡ true)
                (sym settings)
                (subst (λ w. is_some (find f.settings.bootstrap_certificate_pem_file_name w) ≡ true)
                  (sym files) x))
              (subst (λ w. is_some (find w.bootstrap_private_pem_file_name g.files) ≡ true)
                (sym settings)
                (subst (λ w. is_some (find f.settings.bootstrap_private_pem_file_name w) ≡ true)
                  (sym files) y)),
        ),
      ),
    )
