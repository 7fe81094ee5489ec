-- ===== src/Fleet/Restart.antt =====
-- The start of the fleet provisioning after a provisioning (AwsFleetProv/AwsFleetProv.cpp).
use shapeware.Base.{
  ◌≡◌, refl, sym, ap, ◌∙◌, subst, true, false, List, [], ◌∷◌, ◌++◌, Option, none, some, All, arith,
  inr,
}
use shapeware.Text.{Text, is_empty, text_order}
use shapeware.StdMap.{StdMap, find}
use shapeware.Properties.{Properties}
use shapeware.Mqtt.State.{Service}
use shapeware.Fleet.State.{
  Handler, ProvisioningData, IdentityParams, FleetEvent, calls_provisioned, Settings, Fleet,
  Document, Failure,
}
use shapeware.Fleet.Messages.{provisioned_key_of, topic_prefix_of, explore_provision_file}
use shapeware.Fleet.Requests.{Bindings, Answers}
use shapeware.Fleet.Worker.{launch_provisioning}
use shapeware.Fleet.Config
use shapeware.Fleet.Config.{
  new, no_settings, set_paths, all_exist, set_connection, activate, get_topic_prefix,
  get_provisioning_data,
}
use shapeware.Fleet.Run.{Reach}
use shapeware.Fleet.Run.Invariant.{KeysSaved, Official, Told}
use shapeware.Fleet.Run.Saved.{announced-saved}

abbrev pub configured : Properties → Text → Settings
configured props dir = set_paths dir (Config.modify props no_settings)

joined_not_empty : (a b : Text) → is_empty (a ++ b'/' ∷ b) ≡ false
joined_not_empty [] b = refl
joined_not_empty (c ∷ a) b = refl

-- The files of a provisioning that was completed.
pub record Complete (b : Bindings) (s : Settings) (files : StdMap Text Text) : Type 0 where
  pub keys : KeysSaved s files
  pub content : Text
  pub found : find s.official_provision_file_name files ≡ some content
  pub document : Document
  pub parsed : b.json.parse content ≡ some document

-- What `exploreProvisionFile` sets.
abbrev with_topics : IdentityParams → Fleet → Fleet
with_topics par f = record f {
  provisioning_data = record f.provisioning_data { provisioned_key = provisioned_key_of par };
  topic_prefix = topic_prefix_of par;
}

explore_lem :
    (b : Bindings) (f : Fleet) (content : Text) (document : Document)
    → find f.settings.official_provision_file_name f.files ≡ some content
    → b.json.parse content ≡ some document
    → explore_provision_file b.json b.identity f ≡ (none, with_topics b.identity f)
unfolding explore_provision_file
explore_lem b f content document e p = rw (e, explore_provision_file) (rw p refl)

exist_lem : (b : Bindings) (s : Settings) (f : Fleet) → Complete b s f.files → all_exist s f ≡ true
exist_lem b s f h =
    ground (arith, h.keys.all_of_it, h.keys.certificate, h.keys.private_key, h.found)

explore-settings :
    (b : Bindings) (f : Fleet)
    → (explore_provision_file b.json b.identity f).1.settings ≡ f.settings
unfolding explore_provision_file
explore-settings b f = ground arith

module _ (b : Bindings) (props : Properties) (dir : Text) (service : Service)
    (files : StdMap Text Text) where
  abbrev official : Settings
  official = configured props dir

  abbrev explored : Fleet
  explored =
      set_connection true official.broker_addr official.official_certificate_pem_file_name
        official.official_private_pem_file_name (record (new service files) { settings = official })

  activate_lem :
      Complete b official files
      → activate b props dir (new service files) ≡ (none, with_topics b.identity explored)
  unfolding activate
  activate_lem h =
      ap
        (λ o. elim o as (λ x. Option Failure × Fleet) [
          | true ↦ explore_provision_file b.json b.identity explored
          | false ↦ (
            none,
            set_connection false [] [] [] (record (new service files) { settings = official }),
          )
        ])
        (exist_lem b official (record (new service files) { settings = official }) h)
      ∙ explore_lem b explored h.content h.document h.found h.parsed

  prefix_lem : get_topic_prefix (with_topics b.identity explored) ≡ inr (topic_prefix_of b.identity)
  unfolding get_topic_prefix
  prefix_lem = rw joined_not_empty refl

  activate_done :
      Complete b official files
      → let (thrown, f) = activate b props dir (new service files) in
        (thrown ≡ none)
        × (Official b official f.provisioning_data
            × (get_topic_prefix f ≡ inr (topic_prefix_of b.identity)))
  activate_done h =
      subst
        (λ r.
          (r.0 ≡ none)
          × (Official b official r.1.provisioning_data
              × (get_topic_prefix r.1 ≡ inr (topic_prefix_of b.identity))))
        (sym (activate_lem h))
        (
          refl,
          (
            record {
              done = refl;
              address = refl;
              certificate = refl;
              private_key = refl;
              provisioned_key = refl;
            },
            prefix_lem,
          ),
        )

  activate-settings : (activate b props dir (new service files)).1.settings ≡ official
  unfolding activate
  activate-settings =
      elim (all_exist official (record (new service files) { settings = official }))
        as (λ o.
          (elim o as (λ x. Option Failure × Fleet) [
            | true ↦ explore_provision_file b.json b.identity explored
            | false ↦ (
              none,
              set_connection false [] [] [] (record (new service files) { settings = official }),
            )
          ]).1.settings
          ≡ official) [ true ↦ explore-settings b explored | false ↦ refl ]

All-middle : {A : Type 0} (P : A → Type 0) (xs ys : List A) (x : A) → All P (xs ++ x ∷ ys) → P x
All-middle P [] ys x h = h.0
All-middle P (z ∷ xs) ys x h = All-middle P xs ys x h.1

-- A provisioning of a configured component, in any state that its worker and the callbacks reach,
-- where `m_onProvisioned` was called and the saved provision file is well-formed JSON: a new
-- component with the same configuration and data folder is activated without an exception, counts as
-- provisioned, gives the broker, the two paths and the provisioned key that were announced, and the
-- topic prefix of the identity.
pub restart-announced :
    (b : Bindings) (props : Properties) (dir : Text) (service service' : Service)
    (files : StdMap Text Text) (on_provisioned on_error : Option Handler) (a : Answers) {g : Fleet}
    (before after : List FleetEvent) (h : Handler) (d : ProvisioningData) (content : Text)
    (document : Document)
    → Reach b
        (launch_provisioning on_provisioned on_error a (activate b props dir (new service files)).1)
        g
    → g.events ≡ before ++ calls_provisioned h d ∷ after
    → find (configured props dir).official_provision_file_name g.files ≡ some content
    → b.json.parse content ≡ some document
    → let (thrown, f) = activate b props dir (new service' g.files) in
      let e = get_provisioning_data f in
      (thrown ≡ none)
      × ((e.is_provisioned ≡ true)
          × ((e.connection_pars.broker_address ≡ d.connection_pars.broker_address)
              × ((e.connection_pars.certificate ≡ d.connection_pars.certificate)
                  × ((e.connection_pars.private_key ≡ d.connection_pars.private_key)
                      × ((e.provisioned_key ≡ d.provisioned_key)
                          × (get_topic_prefix f ≡ inr (topic_prefix_of b.identity)))))))
unfolding get_provisioning_data
restart-announced b props dir service service' files op oe a {g} before after h d content document r
      e found parsed =
    let all = announced-saved b props dir service files op oe a r in
    let s = (activate b props dir (new service files)).1.settings in
    let told =
      All-middle (Told b s g.files) before after (calls_provisioned h d)
        (subst (All (Told b s g.files)) e all) in
    let same = activate-settings b props dir service files in
    let keys = subst (λ t. KeysSaved t g.files) same told.0 in
    let old = subst (λ t. Official b t d) same told.1.1 in
    let complete : Complete b (configured props dir) g.files = record {
      keys = keys;
      content = content;
      found = found;
      document = document;
      parsed = parsed;
    } in
    let (t, (new', prefix)) = activate_done b props dir service' g.files complete in
    (
      t,
      (
        new'.done,
        (
          new'.address ∙ sym old.address,
          (
            new'.certificate ∙ sym old.certificate,
            (
              new'.private_key ∙ sym old.private_key,
              (new'.provisioned_key ∙ sym old.provisioned_key, prefix),
            ),
          ),
        ),
      ),
    )
