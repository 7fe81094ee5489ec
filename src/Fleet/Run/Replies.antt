-- ===== src/Fleet/Run/Replies.antt =====
-- The answers of the cloud and of the broker in the invariant of a provisioning
-- (AwsFleetProv/AwsFleetProv.cpp).
use shapeware.Base.{
  ◌≡◌, refl, sym, ap, ◌∙◌, subst, Bool, true, false, [], ◌∷◌, Option, none, some, arith, is_some,
  if◌then◌else◌,
}
use shapeware.Text.{Text, codes, text_order}
use shapeware.StdMap.{find}
use shapeware.Fleet.State.{
  Part, keys, register, Promises, Phase, idle, connecting, waiting, Failure, cannot_open,
  missing_or_bad_type, json_parse_error, set_twice, Settings, Fleet, Action, ◌>>◌, throw, modify,
  unless,
}
use shapeware.Fleet.Messages.{
  set_once, with_promises, promises_of, FileSystem, save_keys, keys_accepted, rejected,
  register_accepted, explore_provision_file, set_responded, get_json_as_str, read_message,
  provisioned_key_of, topic_prefix_of,
}
use shapeware.Fleet.Requests.{Bindings}
use shapeware.Fleet.Run.Kept.{Allowed}
use shapeware.Fleet.Run.Invariant.{Exists, KeysSaved, ProvisionSaved, Inv, Inv-log}
use shapeware.Fleet.Run.Saving.{
  Leads, EndsWith, Has, Leads-then, Leads-from, Leads-with_state, Leads-write_output,
  Leads-open_output, Leads-modify, Leads-throw, Leads-unless, Leads-get_json_as_str,
  Leads-save_keys,
}

Allowed-map : {P Q : Type 0} → (P → Q) → (p : Phase) → Allowed P p → Allowed Q p
Allowed-map w idle h = tt
Allowed-map w connecting h = tt
Allowed-map w (waiting keys x) h = tt
Allowed-map w (waiting register x) h = w h

answered_true : {r : Bool} → some r ≡ some true → r ≡ true
answered_true h = ground arith

not_answered : {o : Option Bool} {P : Type 0} → o ≡ none → o ≡ some true → P
not_answered e h = cc

never_true : {P : Type 0} → false ≡ true → P
never_true h = cc

module _ (b : Bindings) (s : Settings) where
  Inv-certificate_id :
      {f : Fleet} (id : Text) → Inv b s f → Inv b s (record f { certificate_id = id })
  Inv-certificate_id id v = record {
    settings = v.settings;
    keys_saved = v.keys_saved;
    registered = v.registered;
    phase = v.phase;
    told = v.told;
  }

  Inv-token : {f : Fleet} (t : Text) → Inv b s f → Inv b s (record f { token = t })
  Inv-token t v = record {
    settings = v.settings;
    keys_saved = v.keys_saved;
    registered = v.registered;
    phase = v.phase;
    told = v.told;
  }

  -- What must hold for an exchange to be answered with success.
  Answered : Part → Fleet → Type 0
  Answered keys f = KeysSaved s f.files
  Answered register f =
      ProvisionSaved s f.files
      × ((f.provisioning_data.provisioned_key ≡ provisioned_key_of b.identity)
          × (f.topic_prefix ≡ topic_prefix_of b.identity))

  Inv-with_promises :
      {f : Fleet} (part : Part) (p : Promises)
      → (p.responded ≡ some true → Answered part f)
      → ((promises_of part f).responded ≡ some true → p.responded ≡ some true)
      → Inv b s f
      → Inv b s (with_promises part p f)
  unfolding Answered
  Inv-with_promises {f} keys p k w v = record {
    settings = v.settings;
    keys_saved = k;
    registered = v.registered;
    phase = Allowed-map w f.phase v.phase;
    told = v.told;
  }
  Inv-with_promises register p k w v = record {
    settings = v.settings;
    keys_saved = v.keys_saved;
    registered = k;
    phase = v.phase;
    told = v.told;
  }

  Inv-Answered :
      {f : Fleet} (part : Part)
      → Inv b s f
      → (promises_of part f).responded ≡ some true
      → Answered part f
  unfolding Answered
  Inv-Answered keys v e = v.keys_saved e
  Inv-Answered register v e = v.registered e

  Inv-set_responded :
      {f : Fleet} (part : Part) (r : Bool)
      → (r ≡ true → Answered part f)
      → Inv b s f
      → Inv b s (set_responded part r f)
  unfolding set_responded
  Inv-set_responded {f} part r k v =
      let p = promises_of part f in
      elim p.responded
          as (λ o.
            p.responded ≡ o
            → Inv b s
                (if is_some o then f else with_promises part (record p { responded = some r }) f)) [
                  | none ↦ λ e.
                      Inv-with_promises part _ (λ t. k (answered_true t)) (λ t. not_answered e t) v
                  | some x ↦ λ e. v
                ]
        refl

  -- A promise besides that of the answer.
  pub Inv-set_once :
      {f : Fleet} (part : Part) (o : Option Bool) (p : Promises)
      → p.responded ≡ (promises_of part f).responded
      → Inv b s f
      → Inv b s (set_once o (with_promises part p f) f)
  unfolding set_once
  Inv-set_once {f} part none p e v =
      Inv-with_promises part p (λ t. Inv-Answered part v (sym e ∙ t)) (λ t. e ∙ t) v
  Inv-set_once part (some x) p e v = Inv-log b s set_twice tt v

  pub Leads-keys_accepted :
      (fs : FileSystem) (msg : Text) → Leads b s (Inv b s) (keys_accepted b.json fs msg) (Inv b s)
  unfolding keys_accepted Answered
  Leads-keys_accepted fs msg =
      elim (read_message b.json msg)
        as (λ o.
          Leads b s (Inv b s)
            (elim o as (λ x. Action) [
              | none ↦ throw json_parse_error
              | some doc ↦ get_json_as_str doc (codes "/certificateId") λ id. do
                modify (λ f. record f { certificate_id = id })
                get_json_as_str doc (codes "/certificatePem") λ cert.
                    get_json_as_str doc (codes "/privateKey") λ key.
                      get_json_as_str doc (codes "/certificateOwnershipToken") λ token. do
                        modify (λ f. record f { token = token })
                        save_keys fs msg cert key
                        modify (set_responded keys true)
            ])
            (Inv b s)) [
              | none ↦ Leads-throw b s json_parse_error (λ f h. h)
              | some doc ↦ Leads-get_json_as_str b s doc (codes "/certificateId") _ (λ id.
                  Leads-then b s {B = Inv b s} (Leads-modify b s _ (λ f h. Inv-certificate_id id h))
                    (Leads-get_json_as_str b s doc (codes "/certificatePem") _ (λ cert.
                      Leads-get_json_as_str b s doc (codes "/privateKey") _ (λ key.
                        Leads-get_json_as_str b s doc (codes "/certificateOwnershipToken") _
                          (λ token.
                            Leads-then b s {B = Has b s []}
                              (Leads-modify b s _ (λ f h. (Inv-token token h, tt)))
                              (Leads-then b s (Leads-save_keys b s fs msg cert key) (
                                Leads-modify b s _
                                  (λ f h. Inv-set_responded keys true (λ e. h.1) h.0))))))))
            ]

  pub Leads-rejected :
      (part : Part) (msg : Text) → Leads b s (Inv b s) (rejected b.json part msg) (Inv b s)
  unfolding rejected
  Leads-rejected part msg =
      elim (read_message b.json msg)
        as (λ o.
          Leads b s (Inv b s)
            (elim o as (λ x. Action) [
              | none ↦ throw json_parse_error
              | some doc ↦ do
                unless (doc.number_at (codes "/statusCode")) missing_or_bad_type
                get_json_as_str doc (codes "/errorCode") λ code.
                    get_json_as_str doc (codes "/errorMessage")
                      λ message. modify (set_responded part false)
            ])
            (Inv b s)) [
              | none ↦ Leads-throw b s json_parse_error (λ f h. h)
              | some doc ↦ Leads-then b s (Leads-unless b s _ missing_or_bad_type) (
                  Leads-get_json_as_str b s doc (codes "/errorCode") _ (λ code.
                    Leads-get_json_as_str b s doc (codes "/errorMessage") _ (λ message.
                      Leads-modify b s _
                        (λ f h. Inv-set_responded part false (λ e. never_true e) h))))
            ]

  Leads-explore :
      (n : Text)
      → s.official_provision_file_name ≡ n
      → Leads b s
          (Has b s (n ∷ n ∷ []))
          (explore_provision_file b.json b.identity)
          (λ f. Inv b s f × Answered register f)
  unfolding explore_provision_file Answered
  Leads-explore n e = record {
    leads = λ f h.
        let par = b.identity in
        let g : Fleet = record f {
          provisioning_data = record f.provisioning_data {
            provisioned_key = provisioned_key_of par;
          };
          topic_prefix = topic_prefix_of par;
        } in
        let saved = subst (λ m. Exists m f.files) (sym e) h.1.0 in
        let v : Inv b s g = record {
          settings = h.0.settings;
          keys_saved = h.0.keys_saved;
          registered = λ t. (saved, (refl, refl));
          phase = h.0.phase;
          told = h.0.told;
        } in
        elim (find f.settings.official_provision_file_name f.files)
          as (λ o.
            EndsWith b s (λ k. Inv b s k × Answered register k)
              (elim o as (λ x. Option Failure × Fleet) [
                | none ↦ (some (cannot_open f.settings.official_provision_file_name), f)
                | some content ↦ elim (b.json.parse content) as (λ x. Option Failure × Fleet) [
                  | none ↦ (some json_parse_error, f)
                  | some doc ↦ (none, g)
                ]
              ])) [
                | none ↦ h.0
                | some content ↦
                    elim (b.json.parse content)
                      as (λ o.
                        EndsWith b s (λ k. Inv b s k × Answered register k)
                          (elim o as (λ x. Option Failure × Fleet) [
                            | none ↦ (some json_parse_error, f)
                            | some doc ↦ (none, g)
                          ])) [ none ↦ h.0 | some doc ↦ (v, (saved, (refl, refl))) ]
              ];
  }

  pub Leads-register_accepted :
      (fs : FileSystem) (msg : Text)
      → Leads b s (Inv b s) (register_accepted b.json fs b.identity msg) (Inv b s)
  unfolding register_accepted
  Leads-register_accepted fs msg =
      Leads-with_state b s (λ g h. h)
        λ g e.
          let n = g.settings.official_provision_file_name in
          Leads-then b s {B = Has b s (n ∷ [])}
            (Leads-from b s (λ f h. (h, tt)) (Leads-open_output b s [] fs.opens n))
            (Leads-then b s (Leads-write_output b s (n ∷ []) n msg) (
              Leads-then b s (Leads-explore n (ap (λ t. t.official_provision_file_name) (sym e)))
                (Leads-modify b s _ (λ f h. Inv-set_responded register true (λ t. h.1) h.0))))
