-- ===== src/Fleet/Run/Once.antt =====
-- The worker reports once, when it returns (AwsFleetProv/AwsFleetProv.cpp).
use shapeware.Base.{
  ℕ, ◌≡◌, refl, sym, ap, ◌∙◌, subst, Bool, true, false, Option, none, some, arith, if◌then◌else◌,
}
use shapeware.Mqtt.Connection.{disconnect, destroy}
use shapeware.Fleet.State.{
  Handler, ProvisioningData, Part, keys, register, Wait, for_accepted, for_rejected, for_sent,
  for_response, Phase, idle, connecting, waiting, Failure, cannot_connect, cannot_subscribe,
  cannot_create_keys, cannot_register, calls_provisioned, calls_error, Fleet, Action, ◌>>◌, modify,
  unless, call, catch,
}
use shapeware.Fleet.Messages.{log, promises_of}
use shapeware.Fleet.Requests.{Bindings, Answers, go_to, unsubscribe_all}
use shapeware.Fleet.Worker.{
  cancel, report_error, fail, guarded, close_session, provisioned, cannot, after_get, after_connect,
  worker_at, worker_step, promise_of,
}
use shapeware.Fleet.Run.{Step, works, hears, Reach, here, next}
use shapeware.Fleet.Run.Kept.{
  Kept, Keeps, Keeps-then, Keeps-catch, Keeps-cancel, Keeps-go_to, Keeps-unless,
  Keeps-subscribe_part, Keeps-publish_part, Keeps-unsubscribe_all,
}
use shapeware.Fleet.Run.Progress.{some_of_either, some_of_get}
use shapeware.Fleet.Run.Quiet.{reports, reports-append, Quiet}
use shapeware.Fleet.Run.QuietCalls.{callback_step-Quiet}

abbrev pub is_idle : Phase → Bool
is_idle idle = true
is_idle connecting = false
is_idle (waiting part w) = false

abbrev pub Active : Phase → Type 0
Active p = is_idle p ≡ false

module _ (p e : Handler) where
  -- Both functions are set, and so many reports were made.
  pub record Told (n : ℕ) (f : Fleet) : Type 0 where
    pub provisioned_hndl : f.on_provisioned ≡ some p
    pub error_hndl : f.on_error ≡ some e
    pub count : reports f.events ≡ n

  pub record Once (f : Fleet) : Type 0 where
    pub told : Told (if is_idle f.phase then 1 else 0) f

  Told-Kept : {n : ℕ} {f g : Fleet} → Kept Active f g → Told n f → Told n g
  Told-Kept k t = record {
    provisioned_hndl = k.on_provisioned ∙ t.provisioned_hndl;
    error_hndl = k.on_error ∙ t.error_hndl;
    count = ap reports k.events ∙ t.count;
  }

  -- Where the worker goes on, nothing is reported yet.
  pub Once-running : {f : Fleet} → Active f.phase → Told 0 f → Once f
  Once-running {f} a t = record { told = subst (λ b. Told (if b then 1 else 0) f) (sym a) t }

  Once-stopped : {f : Fleet} → f.phase ≡ idle → Told 1 f → Once f
  Once-stopped {f} a t = record {
    told = subst (λ q. Told (if is_idle q then 1 else 0) f) (sym a) t;
  }

  Told-report_error : {f : Fleet} (d : Failure) → Told 0 f → Told 1 (report_error d f)
  unfolding report_error
  Told-report_error {f} d t =
      subst (λ h. Told 1 (elim h as (λ k. Fleet) [ none ↦ f | some k ↦ log (calls_error k d) f ]))
        (sym t.error_hndl)
        (record {
          provisioned_hndl = t.provisioned_hndl;
          error_hndl = t.error_hndl;
          count = omega (arith, reports-append f.events (calls_error e d), t.count);
        })

  pub Once-fail : {f : Fleet} (d : Failure) → Told 0 f → Once (fail d f)
  unfolding fail
  Once-fail {f} d t =
      let r = Told-report_error d t in
      Once-stopped refl (record {
        provisioned_hndl = r.provisioned_hndl;
        error_hndl = r.error_hndl;
        count = r.count;
      })

  Once-guarded :
      {f : Fleet} (a : Answers) (m : Action)
      → Keeps Active m
      → Active f.phase
      → Told 0 f
      → Once (guarded a m f)
  unfolding guarded
  Once-guarded {f} a m k v t =
      let kept = (Keeps-catch k (Keeps-cancel a)).keeps f in
      let (r, g) = catch m (cancel a) f in
      elim r as (λ x. Once (elim x as (λ y. Fleet) [ none ↦ g | some d ↦ fail d g ])) [
        | none ↦ Once-running (kept.phase v) (Told-Kept kept t)
        | some d ↦ Once-fail d (Told-Kept kept t)
      ]

  Once-close_session : {f : Fleet} (a : Answers) → Told 1 f → Once (close_session a f)
  unfolding close_session ◌>>◌ call disconnect destroy go_to modify
  Once-close_session a t =
      Once-stopped refl (record {
        provisioned_hndl = t.provisioned_hndl;
        error_hndl = t.error_hndl;
        count = t.count;
      })

  Told-provisioned : {f : Fleet} → Told 0 f → Told 1 (provisioned f)
  unfolding provisioned
  Told-provisioned {f} t =
      let d : ProvisioningData = record f.provisioning_data {
        is_provisioned = true;
        connection_pars = record f.provisioning_data.connection_pars {
          broker_address = f.settings.broker_addr;
          certificate = f.settings.official_certificate_pem_file_name;
          private_key = f.settings.official_private_pem_file_name;
        };
      } in
      let g : Fleet = record f { provisioning_data = d } in
      subst
        (λ h. Told 1 (elim h as (λ k. Fleet) [ none ↦ g | some k ↦ log (calls_provisioned k d) g ]))
        (sym t.provisioned_hndl)
        (record {
          provisioned_hndl = t.provisioned_hndl;
          error_hndl = t.error_hndl;
          count = omega (arith, reports-append f.events (calls_provisioned p d), t.count);
        })

  -- The end of a provisioning, with the exception that ended it, if any.
  Once-end :
      {f g : Fleet} (a : Answers) (r : Option Failure)
      → Kept Active f g
      → Told 0 f
      → Once (elim r as (λ x. Fleet) [ none ↦ close_session a (provisioned g) | some d ↦ fail d g ])
  Once-end a none k t = Once-close_session a (Told-provisioned (Told-Kept k t))
  Once-end a (some d) k t = Once-fail d (Told-Kept k t)

  after_get-Once :
      (b : Bindings) (part : Part) (w : Wait) (result : Bool) (a : Answers) {f : Fleet}
      → f.phase ≡ waiting part w
      → Told 0 f
      → Once (after_get b part w result a f)
  unfolding after_get cannot
  after_get-Once b keys for_accepted result a q t =
      Once-guarded a _
        (Keeps-then (Keeps-unless result cannot_subscribe)
          (Keeps-go_to (waiting keys for_rejected) refl))
        (ap is_idle q) t
  after_get-Once b register for_accepted result a q t =
      Once-running refl (record {
        provisioned_hndl = t.provisioned_hndl;
        error_hndl = t.error_hndl;
        count = t.count;
      })
  after_get-Once b keys for_rejected result a q t =
      Once-guarded a _
        (Keeps-then (Keeps-unless result cannot_subscribe) (Keeps-publish_part b keys a refl))
        (ap is_idle q) t
  after_get-Once b register for_rejected result a q t =
      Once-guarded a _
        (Keeps-then (Keeps-unless _ cannot_subscribe) (
          Keeps-then (Keeps-unless result cannot_subscribe) (Keeps-publish_part b register a refl)))
        (ap is_idle q) t
  after_get-Once b keys for_sent result a q t =
      Once-guarded a _
        (Keeps-then (Keeps-unless result cannot_create_keys)
          (Keeps-go_to (waiting keys for_response) refl))
        (ap is_idle q) t
  after_get-Once b register for_sent result a q t =
      Once-guarded a _
        (Keeps-then (Keeps-unless result cannot_register)
          (Keeps-go_to (waiting register for_response) refl))
        (ap is_idle q) t
  after_get-Once b keys for_response result a q t =
      Once-guarded a _
        (Keeps-then (Keeps-unless result cannot_create_keys) (Keeps-subscribe_part register a refl))
        (ap is_idle q) t
  after_get-Once b register for_response result a {f} q t =
      let m = unless result cannot_register >> unsubscribe_all a in
      Once-end a (catch m (cancel a) f).0
        ((Keeps-catch (Keeps-then (Keeps-unless result cannot_register) (Keeps-unsubscribe_all a))
            (Keeps-cancel a)).keeps
          f)
        t

  Once-if : {f g : Fleet} (c : Bool) → Once f → Once g → Once (if c then f else g)
  Once-if true v w = v
  Once-if false v w = w

  after_connect-Once :
      {f : Fleet} (a : Answers) → f.phase ≡ connecting → Told 0 f → Once (after_connect a f)
  unfolding after_connect
  after_connect-Once {f} a q t =
      Once-if f.connected (Once-guarded a _ (Keeps-subscribe_part keys a refl) (ap is_idle q) t) (
        Once-close_session a (
          Told-report_error cannot_connect (record {
            provisioned_hndl = t.provisioned_hndl;
            error_hndl = t.error_hndl;
            count = t.count;
          })))

  running-Told : {f : Fleet} (q : Phase) → f.phase ≡ q → Active q → Once f → Told 0 f
  running-Told {f} q h v o = subst (λ b. Told (if b then 1 else 0) f) (ap is_idle h ∙ v) o.told

  worker_at-Once :
      (b : Bindings) {f g : Fleet} (q : Phase) (timed_out : Bool) (a : Answers)
      → f.phase ≡ q
      → worker_at b q timed_out a f ≡ some g
      → Once f
      → Once g
  unfolding worker_at
  worker_at-Once b idle timed_out a h w o = cc
  worker_at-Once b {f} connecting timed_out a h w o =
      subst Once (some_of_either f.connected timed_out w)
        (after_connect-Once a h (running-Told connecting h refl o))
  worker_at-Once b {f} (waiting part x) timed_out a h w o =
      let (result, (e, k)) =
        some_of_get (promise_of x (promises_of part f)) (λ r. after_get b part x r a f) w in
      subst Once k (after_get-Once b part x result a h (running-Told (waiting part x) h refl o))

  Once-Quiet : {f g : Fleet} → Quiet f g → Once f → Once g
  Once-Quiet {f} {g} q o = record {
    told = record {
      provisioned_hndl = q.on_provisioned ∙ o.told.provisioned_hndl;
      error_hndl = q.on_error ∙ o.told.error_hndl;
      count = q.reports ∙ o.told.count ∙ ap (λ x. if is_idle x then 1 else 0) (sym q.phase);
    };
  }

  Step-Once : (b : Bindings) {f g : Fleet} → Step b f g → Once f → Once g
  unfolding worker_step
  Step-Once b {f} (works timed_out a h) o = worker_at-Once b f.phase timed_out a refl h o
  Step-Once b (hears fs c h) o = Once-Quiet (callback_step-Quiet b fs c h) o

  pub Reach-Once : (b : Bindings) {f g : Fleet} → Once f → Reach b f g → Once g
  Reach-Once b o here = o
  Reach-Once b o (next r st) = Step-Once b st (Reach-Once b o r)
