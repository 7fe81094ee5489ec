-- ===== src/Fleet/Run/Progress.antt =====
-- The steps of the worker keep the invariant of a provisioning (AwsFleetProv/AwsFleetProv.cpp).
use shapeware.Base.{
  ◌≡◌, refl, sym, ap, ◌∙◌, subst, Bool, true, false, Option, none, some, arith, if◌then◌else◌,
}
use shapeware.Mqtt.State.{ConnectionPars}
use shapeware.Mqtt.Connection.{disconnect, destroy}
use shapeware.Mqtt.Run.{run_callbacks}
use shapeware.Fleet.State.{
  Part, keys, register, Wait, for_accepted, for_rejected, for_sent, for_response, Phase, idle,
  connecting, waiting, Failure, calls_provisioned, Settings, Fleet, Action, ◌>>◌, unless, catch,
  throw, with_state, cannot_subscribe, cannot_create_keys, cannot_register, cannot_connect, sliced,
}
use shapeware.Fleet.Messages.{log, promises_of}
use shapeware.Fleet.Requests.{Bindings, Answers, unsubscribe_all, subscribe_part, unsubscribe_topic}
use shapeware.Fleet.Worker.{
  cancel, fail, close_session, during, provisioned, cannot, after_get, after_connect, worker_at,
  worker_step, promise_of,
}
use shapeware.Fleet.Run.Kept.{
  Allowed, Kept, Keeps-then, Keeps-catch, Keeps-cancel, Keeps-call, Keeps-go_to, Keeps-unless,
  Keeps-refused, Keeps-subscribe_part, Keeps-publish_part, Keeps-unsubscribe_all,
}
use shapeware.Fleet.Run.Invariant.{
  Official, Inv, Inv-Kept, Inv-log, Inv-at, Inv-report_error, Inv-fail, Inv-guarded,
}

-- The end of an action by an exception, whatever the state.
pub record Throws (m : Action) : Type 0 where
  pub throws : (f : Fleet) → (e : Failure) × ((m f).0 ≡ some e)

Throws-then : (m : Action) {k : Action} → Throws k → Throws (m >> k)
unfolding ◌>>◌
Throws-then m {k} q = record {
  throws = λ f.
      let (r, g) = m f in
      elim r
        as (λ x.
          (e : Failure) × ((elim x as (λ y. Option Failure × Fleet) [
            | none ↦ k g
            | some e ↦ (some e, g)
          ]).0
            ≡ some e)) [ none ↦ q.throws g | some e ↦ (e, refl) ];
}

throw-Throws : (e : Failure) → Throws (throw e)
unfolding throw
throw-Throws e = record { throws = λ f. (e, refl) }

Throws-with_state : {k : Fleet → Action} → ((g : Fleet) → Throws (k g)) → Throws (with_state k)
unfolding with_state
Throws-with_state p = record { throws = λ f. (p f).throws f }

pub cancel-Throws : (a : Answers) (e : Failure) → Throws (cancel a e)
unfolding cancel
cancel-Throws a e = Throws-with_state λ g.
    let drop = unsubscribe_topic a in
    Throws-then (drop g.topics.topic1) (
      Throws-then (drop g.topics.topic2) (
        Throws-then (drop g.topics.topic3)
          (Throws-then (drop g.topics.topic4) (throw-Throws sliced))))

pub some_of_either :
    {f g : Fleet} (c d : Bool) → (if c then some f else if d then some f else none) ≡ some g → f ≡ g
some_of_either c d h = ground arith

pub some_of_get :
    {g : Fleet} (o : Option Bool) (k : Bool → Fleet)
    → elim o as (λ x. Option Fleet) [ none ↦ none | some r ↦ some (k r) ] ≡ some g
    → (r : Bool) × ((o ≡ some r) × (k r ≡ g))
some_of_get none k h = cc
some_of_get (some r) k h = (r, (refl, ground (arith, h)))

module _ (b : Bindings) (s : Settings) where
  Inv-close_session : {f : Fleet} (a : Answers) → Inv b s f → Inv b s (close_session a f)
  unfolding close_session
  Inv-close_session {f} a v =
      Inv-Kept b s
        ((Keeps-then (Keeps-call disconnect) (
            Keeps-then (Keeps-call (during a.in_disconnect)) (
              Keeps-then (Keeps-call (destroy (run_callbacks a.meanwhile) a.handle_left))
                (Keeps-go_to idle tt)))).keeps
          f)
        v

  -- Another state of the parameters of the connection.
  Inv-pars :
      {f : Fleet} {done : Bool} {pars : ConnectionPars}
      → Inv b s f
      → Inv b s (record f {
        provisioning_data = record f.provisioning_data {
          is_provisioned = done;
          connection_pars = pars;
        };
      })
  Inv-pars v = record {
    settings = v.settings;
    keys_saved = v.keys_saved;
    registered = v.registered;
    phase = v.phase;
    told = v.told;
  }

  Inv-provisioned :
      {f : Fleet}
      → f.keys_promises.responded ≡ some true
      → f.register_promises.responded ≡ some true
      → Inv b s f
      → Inv b s (provisioned f)
  unfolding provisioned
  Inv-provisioned {f} k r v =
      let d = record f.provisioning_data {
        is_provisioned = true;
        connection_pars = record f.provisioning_data.connection_pars {
          broker_address = f.settings.broker_addr;
          certificate = f.settings.official_certificate_pem_file_name;
          private_key = f.settings.official_private_pem_file_name;
        };
      } in
      let g : Fleet = record f { provisioning_data = d } in
      let w : Inv b s g = Inv-pars v in
      let official : Official b s d = record {
        done = refl;
        address = ap (λ x. x.broker_addr) v.settings;
        certificate = ap (λ x. x.official_certificate_pem_file_name) v.settings;
        private_key = ap (λ x. x.official_private_pem_file_name) v.settings;
        provisioned_key = (v.registered r).1.0;
      } in
      elim f.on_provisioned
        as (λ h.
          Inv b s (elim h as (λ k. Fleet) [ none ↦ g | some k ↦ log (calls_provisioned k d) g ])) [
            | none ↦ w
            | some h ↦
                Inv-log b s (calls_provisioned h d) (v.keys_saved k, ((v.registered r).0, official))
                  w
          ]

  Inv-success :
      {f : Fleet} (a : Answers)
      → f.keys_promises.responded ≡ some true
      → f.register_promises.responded ≡ some true
      → Inv b s f
      → (let (r, g) = catch (unless true cannot_register >> unsubscribe_all a) (cancel a) f in
          Inv b s
            (elim r as (λ x. Fleet) [ none ↦ close_session a (provisioned g) | some e ↦ fail e g ]))
  Inv-success {f} a k r v =
      let m = unless true cannot_register >> unsubscribe_all a in
      let (x, g) = catch m (cancel a) f in
      let kept : Kept (Allowed (f.keys_promises.responded ≡ some true)) f g =
        (Keeps-catch (Keeps-then (Keeps-unless true cannot_register) (Keeps-unsubscribe_all a))
            (Keeps-cancel a)).keeps
          f in
      let w = Inv-Kept b s kept v in
      elim x
        as (λ y.
          Inv b s (elim y as (λ z. Fleet) [
            | none ↦ close_session a (provisioned g)
            | some e ↦ fail e g
          ])) [
            | none ↦ Inv-close_session a (
                Inv-provisioned (ap (λ p. p.responded) kept.keys_promises ∙ k)
                  (ap (λ p. p.responded) kept.register_promises ∙ r) w)
            | some e ↦ Inv-fail b s e w
          ]

  Inv-refused :
      {f : Fleet} (a : Answers)
      → Inv b s f
      → (let (r, g) = catch (unless false cannot_register >> unsubscribe_all a) (cancel a) f in
          Inv b s
            (elim r as (λ x. Fleet) [ none ↦ close_session a (provisioned g) | some e ↦ fail e g ]))
  unfolding unless catch ◌>>◌
  Inv-refused {f} a v =
      let (x, g) = cancel a cannot_register f in
      let (e, t) = (cancel-Throws a cannot_register).throws f in
      subst
        (λ y.
          Inv b s
            (elim y as (λ z. Fleet) [ none ↦ close_session a (provisioned g) | some e ↦ fail e g ]))
        (sym t) (Inv-fail b s e (Inv-Kept b s ((Keeps-cancel a cannot_register).keeps f) v))

  -- While the worker registers, the keys are there.
  keys_done :
      {f : Fleet} (w : Wait)
      → f.phase ≡ waiting register w
      → Inv b s f
      → f.keys_promises.responded ≡ some true
  keys_done {f} w p v = subst (Allowed (f.keys_promises.responded ≡ some true)) p v.phase

  after_get-Inv :
      {f : Fleet} (part : Part) (w : Wait) (result : Bool) (a : Answers)
      → f.phase ≡ waiting part w
      → promise_of w (promises_of part f) ≡ some result
      → Inv b s f
      → Inv b s (after_get b part w result a f)
  unfolding after_get cannot
  after_get-Inv keys for_accepted result a p e v =
      Inv-guarded b s a _
        (Keeps-then (Keeps-unless result cannot_subscribe)
          (Keeps-go_to (waiting keys for_rejected) tt))
        v
  after_get-Inv register for_accepted result a p e v =
      Inv-at b s (waiting register for_rejected) (keys_done for_accepted p v) v
  after_get-Inv keys for_rejected result a p e v =
      Inv-guarded b s a _
        (Keeps-then (Keeps-unless result cannot_subscribe) (Keeps-publish_part b keys a tt)) v
  after_get-Inv register for_rejected result a p e v =
      Inv-guarded b s a _
        (Keeps-then (Keeps-unless _ cannot_subscribe) (
          Keeps-then (Keeps-unless result cannot_subscribe)
            (Keeps-publish_part b register a (keys_done for_rejected p v))))
        v
  after_get-Inv keys for_sent result a p e v =
      Inv-guarded b s a _
        (Keeps-then (Keeps-unless result cannot_create_keys)
          (Keeps-go_to (waiting keys for_response) tt))
        v
  after_get-Inv register for_sent result a p e v =
      Inv-guarded b s a _
        (Keeps-then (Keeps-unless result cannot_register)
          (Keeps-go_to (waiting register for_response) (keys_done for_sent p v)))
        v
  after_get-Inv keys for_response true a p e v =
      Inv-guarded b s a _
        (Keeps-then (Keeps-unless true cannot_create_keys) (Keeps-subscribe_part register a e)) v
  after_get-Inv keys for_response false a p e v =
      Inv-guarded b s a _ (Keeps-refused cannot_create_keys (subscribe_part register a)) v
  after_get-Inv register for_response true a p e v = Inv-success a (keys_done for_response p v) e v
  after_get-Inv register for_response false a p e v = Inv-refused a v

  Inv-if : {f g : Fleet} (c : Bool) → Inv b s f → Inv b s g → Inv b s (if c then f else g)
  Inv-if true v w = v
  Inv-if false v w = w

  after_connect-Inv : {f : Fleet} (a : Answers) → Inv b s f → Inv b s (after_connect a f)
  unfolding after_connect
  after_connect-Inv {f} a v =
      Inv-if f.connected (Inv-guarded b s a _ (Keeps-subscribe_part keys a tt) v)
        (Inv-close_session a (Inv-report_error b s cannot_connect (Inv-pars v)))

  worker_at-Inv :
      {f g : Fleet} (p : Phase) (timed_out : Bool) (a : Answers)
      → f.phase ≡ p
      → worker_at b p timed_out a f ≡ some g
      → Inv b s f
      → Inv b s g
  unfolding worker_at
  worker_at-Inv idle timed_out a p h v = cc
  worker_at-Inv {f} connecting timed_out a p h v =
      subst (Inv b s) (some_of_either f.connected timed_out h) (after_connect-Inv a v)
  worker_at-Inv {f} (waiting part w) timed_out a p h v =
      let (result, (e, k)) =
        some_of_get (promise_of w (promises_of part f)) (λ r. after_get b part w r a f) h in
      subst (Inv b s) k (after_get-Inv part w result a p e v)

  pub worker_step-Inv :
      {f g : Fleet} (timed_out : Bool) (a : Answers)
      → worker_step b timed_out a f ≡ some g
      → Inv b s f
      → Inv b s g
  unfolding worker_step
  worker_step-Inv {f} timed_out a h v = worker_at-Inv f.phase timed_out a refl h v
