-- ===== src/Fleet/Run/Invariant.antt =====
-- The invariant of a provisioning and the steps of its worker (AwsFleetProv/AwsFleetProv.cpp).
use shapeware.Base.{◌≡◌, sym, ap, ◌∙◌, subst, true, [], ◌∷◌, none, some, All, All-append, is_some}
use shapeware.Text.{Text, text_order}
use shapeware.StdMap.{StdMap, find}
use shapeware.Fleet.State.{
  ProvisioningData, Phase, idle, Failure, FleetEvent, makes_folder, calls_provisioned, calls_error,
  uncaught, set_twice, dangling, Settings, Fleet, Action, catch,
}
use shapeware.Fleet.Messages.{provisioned_key_of, topic_prefix_of, log}
use shapeware.Fleet.Requests.{Bindings, Answers}
use shapeware.Fleet.Worker.{cancel, report_error, fail, guarded}
use shapeware.Fleet.Run.Kept.{Allowed, Kept, Keeps, Keeps-catch, Keeps-cancel}

abbrev pub Exists : Text → StdMap Text Text → Type 0
Exists name files = is_some (find name files) ≡ true

-- The files of the keys are there, and that of the registration.
pub record KeysSaved (s : Settings) (files : StdMap Text Text) : Type 0 where
  pub all_of_it : Exists s.official_certificates_file_name files
  pub certificate : Exists s.official_certificate_pem_file_name files
  pub private_key : Exists s.official_private_pem_file_name files

abbrev pub ProvisionSaved : Settings → StdMap Text Text → Type 0
ProvisionSaved s files = Exists s.official_provision_file_name files

-- What is told by `m_onProvisioned`.
pub record Official (b : Bindings) (s : Settings) (d : ProvisioningData) : Type 0 where
  pub done : d.is_provisioned ≡ true
  pub address : d.connection_pars.broker_address ≡ s.broker_addr
  pub certificate : d.connection_pars.certificate ≡ s.official_certificate_pem_file_name
  pub private_key : d.connection_pars.private_key ≡ s.official_private_pem_file_name
  pub provisioned_key : d.provisioned_key ≡ provisioned_key_of b.identity

abbrev pub Told : Bindings → Settings → StdMap Text Text → FleetEvent → Type 0
Told b s files (calls_provisioned h d) =
    KeysSaved s files × (ProvisionSaved s files × Official b s d)
Told b s files (makes_folder path) = Unit
Told b s files (calls_error h e) = Unit
Told b s files (uncaught e) = Unit
Told b s files set_twice = Unit
Told b s files dangling = Unit

module _ (b : Bindings) (s : Settings) where
  pub record Inv (f : Fleet) : Type 0 where
    pub settings : f.settings ≡ s
    pub keys_saved : f.keys_promises.responded ≡ some true → KeysSaved s f.files
    pub registered :
        f.register_promises.responded ≡ some true
        → ProvisionSaved s f.files
          × ((f.provisioning_data.provisioned_key ≡ provisioned_key_of b.identity)
              × (f.topic_prefix ≡ topic_prefix_of b.identity))
    pub phase : Allowed (f.keys_promises.responded ≡ some true) f.phase
    pub told : All (Told b s f.files) f.events

  pub Inv-Kept :
      {f g : Fleet} → Kept (Allowed (f.keys_promises.responded ≡ some true)) f g → Inv f → Inv g
  Inv-Kept {f} {g} k v = record {
    settings = k.settings ∙ v.settings;
    keys_saved = λ e.
        subst (KeysSaved s) (sym k.files)
          (v.keys_saved (ap (λ p. p.responded) (sym k.keys_promises) ∙ e));
    registered = λ e.
        let w = v.registered (ap (λ p. p.responded) (sym k.register_promises) ∙ e) in
        (
          subst (ProvisionSaved s) (sym k.files) w.0,
          (ap (λ d. d.provisioned_key) k.provisioning_data ∙ w.1.0, k.topic_prefix ∙ w.1.1),
        );
    phase =
        subst (λ p. Allowed (p.responded ≡ some true) g.phase) (sym k.keys_promises)
          (k.phase v.phase);
    told =
        subst (λ fs. All (Told b s fs) g.events) (sym k.files)
          (subst (All (Told b s f.files)) (sym k.events) v.told);
  }

  -- A further event, and another phase.
  pub Inv-log : {f : Fleet} (e : FleetEvent) → Told b s f.files e → Inv f → Inv (log e f)
  Inv-log {f} e t v = record {
    settings = v.settings;
    keys_saved = v.keys_saved;
    registered = v.registered;
    phase = v.phase;
    told = All-append (Told b s f.files) f.events (e ∷ []) v.told (t, tt);
  }

  pub Inv-at :
      {f : Fleet} (p : Phase)
      → Allowed (f.keys_promises.responded ≡ some true) p
      → Inv f
      → Inv (record f { phase = p })
  Inv-at p x v = record {
    settings = v.settings;
    keys_saved = v.keys_saved;
    registered = v.registered;
    phase = x;
    told = v.told;
  }

  pub Inv-report_error : {f : Fleet} (e : Failure) → Inv f → Inv (report_error e f)
  unfolding report_error
  Inv-report_error {f} e v =
      elim f.on_error
        as (λ h. Inv (elim h as (λ k. Fleet) [ none ↦ f | some k ↦ log (calls_error k e) f ])) [
          | none ↦ v
          | some k ↦ Inv-log (calls_error k e) tt v
        ]

  pub Inv-fail : {f : Fleet} (e : Failure) → Inv f → Inv (fail e f)
  unfolding fail
  Inv-fail e v = Inv-at idle tt (Inv-report_error e v)

  pub Inv-guarded :
      {f : Fleet} (a : Answers) (m : Action)
      → Keeps (Allowed (f.keys_promises.responded ≡ some true)) m
      → Inv f
      → Inv (guarded a m f)
  unfolding guarded
  Inv-guarded {f} a m k v =
      let w = Inv-Kept ((Keeps-catch k (Keeps-cancel a)).keeps f) v in
      let (r, g) = catch m (cancel a) f in
      elim r as (λ x. Inv g → Inv (elim x as (λ y. Fleet) [ none ↦ g | some e ↦ fail e g ])) [
        | none ↦ λ u. u
        | some e ↦ λ u. Inv-fail e u
      ]
        w
