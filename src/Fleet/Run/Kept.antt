-- ===== src/Fleet/Run/Kept.antt =====
-- What the actions of the worker leave as it is (AwsFleetProv/AwsFleetProv.cpp).
use shapeware.Base.{◌≡◌, refl, ◌∙◌, Bool, true, false, Option, none, some}
use shapeware.Text.{Text}
use shapeware.Mqtt.State.{Service, Outcome}
use shapeware.Fleet.State.{
  Handler, Part, keys, register, for_accepted, for_sent, Phase, idle, connecting, waiting, Failure,
  sliced, Topics, Fleet, Action, ◌>>◌, throw, modify, unless, call, catch, with_state,
}
use shapeware.Fleet.Requests.{
  Bindings, Answers, go_to, subscribe_part, publish_part, unsubscribe_topic, unsubscribe_all,
  name_thing, set_topics, subscribe_topic, publish_topic, accepted_topic, rejected_topic, topic_of,
  payload, with_accepted, with_rejected,
}
use shapeware.Fleet.Messages.{
  accepted_subscribed_hndl, accepted_message_hndl, rejected_subscribed_hndl, rejected_message_hndl,
}
use shapeware.Fleet.Worker.{cancel}

-- The worker registers only where a condition holds.
abbrev pub Allowed : Type 0 → Phase → Type 0
Allowed P idle = Unit
Allowed P connecting = Unit
Allowed P (waiting keys w) = Unit
Allowed P (waiting register w) = P

pub record Kept (Q : Phase → Type 0) (f g : Fleet) : Type 0 where
  pub settings : g.settings ≡ f.settings
  pub files : g.files ≡ f.files
  pub keys_promises : g.keys_promises ≡ f.keys_promises
  pub register_promises : g.register_promises ≡ f.register_promises
  pub provisioning_data : g.provisioning_data ≡ f.provisioning_data
  pub topic_prefix : g.topic_prefix ≡ f.topic_prefix
  pub events : g.events ≡ f.events
  pub on_provisioned : g.on_provisioned ≡ f.on_provisioned
  pub on_error : g.on_error ≡ f.on_error
  pub phase : Q f.phase → Q g.phase

pub record Keeps (Q : Phase → Type 0) (m : Action) : Type 0 where
  pub keeps : (f : Fleet) → Kept Q f (m f).1

module _ {Q : Phase → Type 0} where
  Kept-trans : {f g h : Fleet} → Kept Q f g → Kept Q g h → Kept Q f h
  Kept-trans p q = record {
    settings = q.settings ∙ p.settings;
    files = q.files ∙ p.files;
    keys_promises = q.keys_promises ∙ p.keys_promises;
    register_promises = q.register_promises ∙ p.register_promises;
    provisioning_data = q.provisioning_data ∙ p.provisioning_data;
    topic_prefix = q.topic_prefix ∙ p.topic_prefix;
    events = q.events ∙ p.events;
    on_provisioned = q.on_provisioned ∙ p.on_provisioned;
    on_error = q.on_error ∙ p.on_error;
    phase = λ x. q.phase (p.phase x);
  }

  Kept-refl : (f : Fleet) → Kept Q f f
  Kept-refl f = record {
    settings = refl;
    files = refl;
    keys_promises = refl;
    register_promises = refl;
    provisioning_data = refl;
    topic_prefix = refl;
    events = refl;
    on_provisioned = refl;
    on_error = refl;
    phase = λ q. q;
  }

  pub Keeps-then : {m k : Action} → Keeps Q m → Keeps Q k → Keeps Q (m >> k)
  unfolding ◌>>◌
  Keeps-then {m} {k} p q = record {
    keeps = λ f.
        let (r, g) = m f in
        elim r
            as (λ x.
              Kept Q f g
              → Kept Q f
                  (elim x as (λ y. Option Failure × Fleet) [
                    | none ↦ k g
                    | some e ↦ (some e, g)
                  ]).1) [ none ↦ λ w. Kept-trans w (q.keeps g) | some e ↦ λ w. w ]
          (p.keeps f);
  }

  pub Keeps-catch :
      {m : Action} {h : Failure → Action}
      → Keeps Q m
      → ((e : Failure) → Keeps Q (h e))
      → Keeps Q (catch m h)
  unfolding catch
  Keeps-catch {m} {h} p q = record {
    keeps = λ f.
        let (r, g) = m f in
        elim r
            as (λ x.
              Kept Q f g
              → Kept Q f
                  (elim x as (λ y. Option Failure × Fleet) [
                    | none ↦ (none, g)
                    | some e ↦ h e g
                  ]).1) [ none ↦ λ w. w | some e ↦ λ w. Kept-trans w ((q e).keeps g) ]
          (p.keeps f);
  }

  pub Keeps-with_state :
      {k : Fleet → Action} → ((g : Fleet) → Keeps Q (k g)) → Keeps Q (with_state k)
  unfolding with_state
  Keeps-with_state p = record { keeps = λ f. (p f).keeps f }

  pub Keeps-call : (op : Service → Outcome) → Keeps Q (call op)
  unfolding call
  Keeps-call op = record {
    keeps = λ f. record {
      settings = refl;
      files = refl;
      keys_promises = refl;
      register_promises = refl;
      provisioning_data = refl;
      topic_prefix = refl;
      events = refl;
      on_provisioned = refl;
      on_error = refl;
      phase = λ q. q;
    };
  }

  pub Keeps-unless : (b : Bool) (e : Failure) → Keeps Q (unless b e)
  unfolding unless
  Keeps-unless true e = record { keeps = λ f. Kept-refl f }
  Keeps-unless false e = record { keeps = λ f. Kept-refl f }

  -- What follows a failed test is not done.
  pub Keeps-refused : (e : Failure) (m : Action) → Keeps Q (unless false e >> m)
  unfolding unless ◌>>◌
  Keeps-refused e m = record { keeps = λ f. Kept-refl f }

  Keeps-throw : (e : Failure) → Keeps Q (throw e)
  unfolding throw
  Keeps-throw e = record { keeps = λ f. Kept-refl f }

  pub Keeps-go_to : (p : Phase) → Q p → Keeps Q (go_to p)
  unfolding go_to modify
  Keeps-go_to p x = record {
    keeps = λ f. record {
      settings = refl;
      files = refl;
      keys_promises = refl;
      register_promises = refl;
      provisioning_data = refl;
      topic_prefix = refl;
      events = refl;
      on_provisioned = refl;
      on_error = refl;
      phase = λ q. x;
    };
  }

  Keeps-set_topics : (g : Topics → Topics) → Keeps Q (set_topics g)
  unfolding set_topics modify
  Keeps-set_topics g = record {
    keeps = λ f. record {
      settings = refl;
      files = refl;
      keys_promises = refl;
      register_promises = refl;
      provisioning_data = refl;
      topic_prefix = refl;
      events = refl;
      on_provisioned = refl;
      on_error = refl;
      phase = λ q. q;
    };
  }

  Keeps-name_thing : (b : Bindings) (part : Part) → Keeps Q (modify (name_thing b part))
  unfolding name_thing modify
  Keeps-name_thing b keys = record { keeps = λ f. Kept-refl f }
  Keeps-name_thing b register = record {
    keeps = λ f. record {
      settings = refl;
      files = refl;
      keys_promises = refl;
      register_promises = refl;
      provisioning_data = refl;
      topic_prefix = refl;
      events = refl;
      on_provisioned = refl;
      on_error = refl;
      phase = λ q. q;
    };
  }

  Keeps-unsubscribe_topic : (a : Answers) (t : Text) → Keeps Q (unsubscribe_topic a t)
  unfolding unsubscribe_topic
  Keeps-unsubscribe_topic a t = Keeps-call _

  Keeps-subscribe_topic :
      (h k : Handler) (a : Answers) (t : Text) → Keeps Q (subscribe_topic h k a t)
  unfolding subscribe_topic
  Keeps-subscribe_topic h k a t = Keeps-call _

  Keeps-publish_topic :
      (part : Part) (a : Answers) (t msg : Text) → Keeps Q (publish_topic part a t msg)
  unfolding publish_topic
  Keeps-publish_topic part a t msg = Keeps-call _

  pub Keeps-cancel : (a : Answers) (e : Failure) → Keeps Q (cancel a e)
  unfolding cancel
  Keeps-cancel a e = Keeps-with_state λ g.
      let drop = Keeps-unsubscribe_topic a in
      Keeps-then (drop g.topics.topic1) (
        Keeps-then (drop g.topics.topic2) (
          Keeps-then (drop g.topics.topic3)
            (Keeps-then (drop g.topics.topic4) (Keeps-throw sliced))))

  pub Keeps-unsubscribe_all : (a : Answers) → Keeps Q (unsubscribe_all a)
  unfolding unsubscribe_all
  Keeps-unsubscribe_all a = Keeps-with_state λ g.
      let drop = Keeps-unsubscribe_topic a in
      Keeps-then (drop g.topics.topic4) (
        Keeps-then (drop g.topics.topic3)
          (Keeps-then (drop g.topics.topic2) (drop g.topics.topic1)))

  pub Keeps-subscribe_part :
      (part : Part) (a : Answers) → Q (waiting part for_accepted) → Keeps Q (subscribe_part part a)
  unfolding subscribe_part
  Keeps-subscribe_part part a x = Keeps-with_state λ g.
      Keeps-then (Keeps-set_topics (with_accepted part (accepted_topic part g.settings))) (
        Keeps-then
          (Keeps-subscribe_topic (accepted_subscribed_hndl part) (accepted_message_hndl part) a
            (accepted_topic part g.settings))
          (Keeps-then (Keeps-set_topics (with_rejected part (rejected_topic part g.settings))) (
            Keeps-then
              (Keeps-subscribe_topic (rejected_subscribed_hndl part) (rejected_message_hndl part) a
                (rejected_topic part g.settings))
              (Keeps-go_to (waiting part for_accepted) x))))

  pub Keeps-publish_part :
      (b : Bindings) (part : Part) (a : Answers)
      → Q (waiting part for_sent)
      → Keeps Q (publish_part b part a)
  unfolding publish_part
  Keeps-publish_part b part a x = Keeps-then (Keeps-name_thing b part) (
      Keeps-then
        (Keeps-with_state
          λ g. Keeps-publish_topic part a (topic_of part g.settings) (payload b part g))
        (Keeps-go_to (waiting part for_sent) x))
