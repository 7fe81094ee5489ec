-- ===== src/Fleet/Run/Saved.antt =====
-- What holds whenever the provisioning is announced (AwsFleetProv/AwsFleetProv.cpp).
use shapeware.Base.{◌≡◌, refl, sym, subst, Bool, true, false, [], Option, none, some, All}
use shapeware.Text.{Text, text_order}
use shapeware.StdMap.{StdMap, find}
use shapeware.Properties.{Properties}
use shapeware.Mqtt.State.{Service}
use shapeware.Mqtt.Connection.{create, connect_with}
use shapeware.Fleet.State.{
  Handler, Phase, idle, connecting, Failure, cert_missing, key_missing, Settings, Fleet, Action,
  no_promises, no_topics, cannot_open, json_parse_error, Document, Promises,
}
use shapeware.Fleet.Messages.{
  on_connect_hndl, explore_provision_file, provisioned_key_of, topic_prefix_of,
}
use shapeware.Fleet.Requests.{Bindings, Answers, go_to}
use shapeware.Fleet.Worker.{
  open_session, start, launch_provisioning, fail, file_exists, bootstrap_pars, name_client,
  new_exchange,
}
use shapeware.Fleet.Config.{new, activate, set_paths, all_exist, set_connection}
use shapeware.Fleet.Config
use shapeware.Fleet.Run.{Step, works, hears, Reach, here, next}
use shapeware.Fleet.Run.Kept.{Allowed, Keeps, Keeps-with_state, Keeps-call}
use shapeware.Fleet.Run.Invariant.{Inv, Inv-Kept, Inv-fail, Told}
use shapeware.Fleet.Run.Saving.{
  Leads, Ends, Leads-then, Leads-modify, Leads-with_state, Leads-unless,
}
use shapeware.Fleet.Run.Progress.{worker_step-Inv}
use shapeware.Fleet.Run.Delivery.{callback_step-Inv}

-- A component that has not been launched.
pub record Fresh (f : Fleet) : Type 0 where
  pub keys_open : f.keys_promises ≡ no_promises
  pub register_open : f.register_promises ≡ no_promises
  pub at_rest : f.phase ≡ idle
  pub silent : f.events ≡ []

abbrev FreshAfter : Option Failure × Fleet → Type 0
FreshAfter x = Fresh x.1

abbrev explored : Bindings → Fleet → Option Document → Option Failure × Fleet
explored b f none = (some json_parse_error, f)
explored b f (some doc) = (
  none,
  record f {
    provisioning_data = record f.provisioning_data {
      provisioned_key = provisioned_key_of b.identity;
    };
    topic_prefix = topic_prefix_of b.identity;
  },
)

explored-Fresh :
    (b : Bindings) {f : Fleet} → Fresh f → (d : Option Document) → Fresh (explored b f d).1
explored-Fresh b h none = h
explored-Fresh b h (some doc) = record {
  keys_open = h.keys_open;
  register_open = h.register_open;
  at_rest = h.at_rest;
  silent = h.silent;
}

explore-Fresh :
    (b : Bindings) {f : Fleet} → Fresh f → Fresh (explore_provision_file b.json b.identity f).1
unfolding explore_provision_file
explore-Fresh b {f} h =
    elim (find f.settings.official_provision_file_name f.files)
      as (λ o. FreshAfter (elim o as (λ x. Option Failure × Fleet) [
        | none ↦ (some (cannot_open f.settings.official_provision_file_name), f)
        | some content ↦ explored b f (b.json.parse content)
      ])) [ none ↦ h | some content ↦ explored-Fresh b h (b.json.parse content) ]

pub activate-Fresh :
    (b : Bindings) (props : Properties) (dir : Text) {f : Fleet}
    → Fresh f
    → Fresh (activate b props dir f).1
unfolding activate
activate-Fresh b props dir {f} h =
    let s = set_paths dir (Config.modify props f.settings) in
    let g : Fleet = record f { settings = s } in
    let v : (done : Bool) (x y z : Text) → Fresh (set_connection done x y z g) = λ done x y z.
      record {
        keys_open = h.keys_open;
        register_open = h.register_open;
        at_rest = h.at_rest;
        silent = h.silent;
      } in
    elim (all_exist s g)
      as (λ o. FreshAfter (elim o as (λ x. Option Failure × Fleet) [
        | true ↦ explore_provision_file b.json b.identity (
            set_connection true s.broker_addr s.official_certificate_pem_file_name
              s.official_private_pem_file_name g)
        | false ↦ (none, set_connection false [] [] [] g)
      ])) [
        | true ↦ explore-Fresh b (
            v true s.broker_addr s.official_certificate_pem_file_name
              s.official_private_pem_file_name)
        | false ↦ v false [] [] []
      ]

pub new-Fresh : (service : Service) (files : StdMap Text Text) → Fresh (new service files)
new-Fresh service files = record {
  keys_open = refl;
  register_open = refl;
  at_rest = refl;
  silent = refl;
}

open_lem : {p : Promises} {P : Type 0} → p ≡ no_promises → p.responded ≡ some true → P
open_lem h e = cc

Fresh-Inv : (b : Bindings) {f : Fleet} → Fresh f → Inv b f.settings f
Fresh-Inv b {f} h = record {
  settings = refl;
  keys_saved = λ e. open_lem h.keys_open e;
  registered = λ e. open_lem h.register_open e;
  phase = subst (Allowed (f.keys_promises.responded ≡ some true)) (sym h.at_rest) tt;
  told = subst (All (Told b f.settings f.files)) (sym h.silent) tt;
}

module _ (b : Bindings) (s : Settings) where
  -- What keeps the parts of the state that the invariant reads.
  Leads-Keeps : {m : Action} → ((Q : Phase → Type 0) → Keeps Q m) → Leads b s (Inv b s) m (Inv b s)
  Leads-Keeps {m} k = record {
    leads = λ f v.
        let (r, g) = m f in
        elim r as (λ x. Inv b s g → Ends b s (Inv b s) x g) [ none ↦ λ w. w | some e ↦ λ w. w ]
          (Inv-Kept b s ((k _).keeps f) v);
  }

  Inv-mqtt_client_id :
      {f : Fleet} (id : Text) → Inv b s f → Inv b s (record f { mqtt_client_id = id })
  Inv-mqtt_client_id id v = record {
    settings = v.settings;
    keys_saved = v.keys_saved;
    registered = v.registered;
    phase = v.phase;
    told = v.told;
  }

  Inv-new_exchange :
      {f : Fleet}
      → Inv b s f
      → Inv b s (record f {
        topics = no_topics;
        keys_promises = no_promises;
        register_promises = no_promises;
        phase = connecting;
      })
  Inv-new_exchange v = record {
    settings = v.settings;
    keys_saved = λ e. open_lem {p = no_promises} refl e;
    registered = λ e. open_lem {p = no_promises} refl e;
    phase = tt;
    told = v.told;
  }

  Leads-open_session : (a : Answers) → Leads b s (Inv b s) (open_session a) (Inv b s)
  unfolding open_session go_to
  Leads-open_session a =
      Leads-with_state b s (λ g v. v)
        λ g e.
          Leads-then b s
            (Leads-unless b s (file_exists g.settings.bootstrap_certificate_pem_file_name g)
              cert_missing)
            (Leads-then b s
              (Leads-unless b s (file_exists g.settings.bootstrap_private_pem_file_name g)
                key_missing)
              (Leads-then b s {B = Inv b s}
                (Leads-modify b s (name_client a.random) (λ f v. Inv-mqtt_client_id _ v))
                (Leads-then b s
                  (Leads-Keeps λ Q. Keeps-with_state λ f. Keeps-call (
                    create f.mqtt_client_id (bootstrap_pars g.settings) a.created a.set_connected
                      a.set_callbacks))
                  (Leads-then b s
                    (Leads-Keeps λ Q.
                      Keeps-call (connect_with (some on_connect_hndl) a.is_connected a.connects))
                    (Leads-then b s {B = λ f. Inv b s (record f { phase = connecting })}
                      (Leads-modify b s new_exchange (λ f v. Inv-new_exchange v))
                      (Leads-modify b s (λ f. record f { phase = connecting }) (λ f v. v)))))))

  Inv-connected : {f : Fleet} → Inv b s f → Inv b s (record f { connected = false })
  Inv-connected v = record {
    settings = v.settings;
    keys_saved = v.keys_saved;
    registered = v.registered;
    phase = v.phase;
    told = v.told;
  }

  Inv-handlers :
      {f : Fleet} (h k : Option Handler)
      → Inv b s f
      → Inv b s (record f { on_provisioned = h; on_error = k })
  Inv-handlers h k v = record {
    settings = v.settings;
    keys_saved = v.keys_saved;
    registered = v.registered;
    phase = v.phase;
    told = v.told;
  }

  start-Inv : {f : Fleet} (a : Answers) → Inv b s f → Inv b s (start a f)
  unfolding start
  start-Inv {f} a v =
      let (r, g) = open_session a (record f { connected = false }) in
      elim r
          as (λ x.
            Ends b s (Inv b s) x g
            → Inv b s (elim x as (λ y. Fleet) [ none ↦ g | some e ↦ fail e g ])) [
              | none ↦ λ w. w
              | some e ↦ λ w. Inv-fail b s e w
            ]
        ((Leads-open_session a).leads (record f { connected = false }) (Inv-connected v))

  Step-Inv : {f g : Fleet} → Step b f g → Inv b s f → Inv b s g
  Step-Inv (works timed_out a h) v = worker_step-Inv b s timed_out a h v
  Step-Inv (hears fs c h) v = callback_step-Inv b s fs c h v

  Reach-Inv : {f g : Fleet} → Inv b s f → Reach b f g → Inv b s g
  Reach-Inv v here = v
  Reach-Inv v (next r st) = Step-Inv st (Reach-Inv v r)

-- A component that is configured and then provisions, with any handlers, in every state that its
-- worker and the callbacks of the Paho library can reach: whenever `m_onProvisioned` was called, the
-- files of the keys and of the registration are there, and what it was given is marked as
-- provisioned and names the configured broker, the official certificate, the official private key
-- and the provisioned key of the identity.
pub announced-saved :
    (b : Bindings) (props : Properties) (dir : Text) (service : Service) (files : StdMap Text Text)
    (on_provisioned on_error : Option Handler) (a : Answers) {g : Fleet}
    → let f = (activate b props dir (new service files)).1 in
      Reach b (launch_provisioning on_provisioned on_error a f) g
      → All (Told b f.settings g.files) g.events
unfolding launch_provisioning
announced-saved b props dir service files on_provisioned on_error a r =
    let f = (activate b props dir (new service files)).1 in
    let v = Fresh-Inv b (activate-Fresh b props dir (new-Fresh service files)) in
    (Reach-Inv b f.settings
      (start-Inv b f.settings a (Inv-handlers b f.settings on_provisioned on_error v)) r).told
