-- ===== src/Fleet/Run/Saving.antt =====
-- The saving of the files in the invariant of a provisioning (AwsFleetProv/AwsFleetProv.cpp).
use shapeware.Base.{
  ◌≡◌, ap, subst, Bool, true, false, List, [], ◌∷◌, Option, none, some, All, arith, is_some,
  if◌then◌else◌, All-map,
}
use shapeware.Text.{Text, text_order}
use shapeware.StdMap.{StdMap, assign}
use shapeware.StdMap.Laws.{find-assign, find-assign_self}
use shapeware.Fleet.State.{
  Failure, FleetEvent, cannot_open, missing_or_bad_type, calls_provisioned, calls_error,
  makes_folder, uncaught, set_twice, dangling, Settings, Fleet, Document, Action, ◌>>◌, throw,
  modify, unless, with_state,
}
use shapeware.Fleet.Messages.{
  log, FileSystem, check_folder, open_output, write_output, save_keys, get_json_as_str,
}
use shapeware.Fleet.Requests.{Bindings}
use shapeware.Fleet.Run.Invariant.{Exists, KeysSaved, Told, Inv, Inv-log}

Exists-assign :
    (m n c : Text) (files : StdMap Text Text) → Exists m files → Exists m (assign n c files)
Exists-assign m n c files h = ground (arith, h, find-assign m n c files)

Exists-assigned : (n c : Text) (files : StdMap Text Text) → Exists n (assign n c files)
Exists-assigned n c files = ap is_some (find-assign_self n c files)

KeysSaved-assign :
    (s : Settings) (n c : Text) (files : StdMap Text Text)
    → KeysSaved s files
    → KeysSaved s (assign n c files)
KeysSaved-assign s n c files h = record {
  all_of_it = Exists-assign s.official_certificates_file_name n c files h.all_of_it;
  certificate = Exists-assign s.official_certificate_pem_file_name n c files h.certificate;
  private_key = Exists-assign s.official_private_pem_file_name n c files h.private_key;
}

Told-assign :
    (b : Bindings) (s : Settings) (n c : Text) (files : StdMap Text Text) (e : FleetEvent)
    → Told b s files e
    → Told b s (assign n c files) e
Told-assign b s n c files (calls_provisioned h d) t = (
  KeysSaved-assign s n c files t.0,
  (Exists-assign s.official_provision_file_name n c files t.1.0, t.1.1),
)
Told-assign b s n c files (makes_folder path) t = tt
Told-assign b s n c files (calls_error h e) t = tt
Told-assign b s n c files (uncaught e) t = tt
Told-assign b s n c files set_twice t = tt
Told-assign b s n c files dangling t = tt

module _ (b : Bindings) (s : Settings) where
  -- The invariant, with files that are there.
  abbrev pub Has : List Text → Fleet → Type 0
  Has names f = Inv b s f × All (λ n. Exists n f.files) names

  -- After an action: the given predicate where it returns, the invariant where it throws.
  abbrev pub Ends : (Fleet → Type 0) → Option Failure → Fleet → Type 0
  Ends B none f = B f
  Ends B (some e) f = Inv b s f

  abbrev pub EndsWith : (Fleet → Type 0) → Option Failure × Fleet → Type 0
  EndsWith B x = Ends B x.0 x.1

  pub record Leads (A : Fleet → Type 0) (m : Action) (B : Fleet → Type 0) : Type 0 where
    pub leads : (f : Fleet) → A f → Ends B (m f).0 (m f).1

  pub Leads-then :
      {A B C : Fleet → Type 0} {m k : Action} → Leads A m B → Leads B k C → Leads A (m >> k) C
  unfolding ◌>>◌
  Leads-then {B = B} {C = C} {m = m} {k = k} p q = record {
    leads = λ f h.
        let (r, g) = m f in
        elim r
            as (λ x.
              Ends B x g
              → Ends C
                  (elim x as (λ y. Option Failure × Fleet) [ none ↦ k g | some e ↦ (some e, g) ]).0
                  (elim x as (λ y. Option Failure × Fleet) [
                    | none ↦ k g
                    | some e ↦ (some e, g)
                  ]).1) [ none ↦ λ w. q.leads g w | some e ↦ λ w. w ]
          (p.leads f h);
  }

  pub Leads-with_state :
      {A B : Fleet → Type 0} {k : Fleet → Action}
      → ((g : Fleet) → A g → Inv b s g)
      → ((g : Fleet) → g.settings ≡ s → Leads A (k g) B)
      → Leads A (with_state k) B
  unfolding with_state
  Leads-with_state v p = record { leads = λ f h. (p f (v f h).settings).leads f h }

  -- The files as they are, with one more.
  Has-assign :
      {f : Fleet} (names : List Text) (n c : Text)
      → Has names f
      → Has (n ∷ names) (record f { files = assign n c f.files })
  Has-assign {f} names n c h = (
    record {
      settings = h.0.settings;
      keys_saved = λ e. KeysSaved-assign s n c f.files (h.0.keys_saved e);
      registered = λ e.
          let w = h.0.registered e in
          (Exists-assign s.official_provision_file_name n c f.files w.0, w.1);
      phase = h.0.phase;
      told = All-map (Told-assign b s n c f.files) f.events h.0.told;
    },
    (Exists-assigned n c f.files, All-map (λ m. Exists-assign m n c f.files) names h.1),
  )

  pub Leads-write_output :
      (names : List Text) (n c : Text) → Leads (Has names) (write_output n c) (Has (n ∷ names))
  unfolding write_output
  Leads-write_output names n c = record { leads = λ f h. Has-assign names n c h }

  pub Leads-open_output :
      (names : List Text) (opens : Text → Bool) (n : Text)
      → Leads (Has names) (open_output opens n) (Has (n ∷ names))
  unfolding open_output
  Leads-open_output names opens n = record {
    leads = λ f h.
        elim (opens n)
          as (λ o. EndsWith (Has (n ∷ names)) (
            if o
            then (none, record f { files = assign n [] f.files })
            else (some (cannot_open n), f))) [ true ↦ Has-assign names n [] h | false ↦ h.0 ];
  }

  Leads-check_folder : (fs : FileSystem) → Leads (Has []) (check_folder fs) (Has [])
  unfolding check_folder
  Leads-check_folder fs = record {
    leads = λ f h.
        elim (fs.folder_exists f.settings.official_cert_store_path)
          as (λ o. EndsWith (Has []) (
            if o
            then (none, f)
            else (none, log (makes_folder f.settings.official_cert_store_path) f))) [
              | true ↦ h
              | false ↦ (Inv-log b s (makes_folder f.settings.official_cert_store_path) tt h.0, tt)
            ];
  }

  pub Leads-weaken :
      {A B C : Fleet → Type 0} {m : Action} → ((f : Fleet) → B f → C f) → Leads A m B → Leads A m C
  Leads-weaken {B = B} {C = C} {m = m} w p = record {
    leads = λ f h.
        let (r, g) = m f in
        elim r as (λ x. Ends B x g → Ends C x g) [ none ↦ w g | some e ↦ λ v. v ] (p.leads f h);
  }

  pub Leads-from :
      {A A' B : Fleet → Type 0} {m : Action}
      → ((f : Fleet) → A' f → A f)
      → Leads A m B
      → Leads A' m B
  Leads-from w p = record { leads = λ f h. p.leads f (w f h) }

  pub Leads-modify :
      {A B : Fleet → Type 0} (g : Fleet → Fleet)
      → ((f : Fleet) → A f → B (g f))
      → Leads A (modify g) B
  unfolding modify
  Leads-modify g w = record { leads = λ f h. w f h }

  pub Leads-throw :
      {A B : Fleet → Type 0} (e : Failure) → ((f : Fleet) → A f → Inv b s f) → Leads A (throw e) B
  unfolding throw
  Leads-throw e w = record { leads = λ f h. w f h }

  pub Leads-unless : (c : Bool) (e : Failure) → Leads (Inv b s) (unless c e) (Inv b s)
  unfolding unless
  Leads-unless true e = record { leads = λ f h. h }
  Leads-unless false e = record { leads = λ f h. h }

  pub Leads-get_json_as_str :
      {B : Fleet → Type 0} (doc : Document) (path : Text) (k : Text → Action)
      → ((v : Text) → Leads (Inv b s) (k v) B)
      → Leads (Inv b s) (get_json_as_str doc path k) B
  unfolding get_json_as_str
  Leads-get_json_as_str {B} doc path k p =
      elim (doc.string_at path)
        as (λ o.
          Leads (Inv b s)
            (elim o as (λ x. Action) [ none ↦ throw missing_or_bad_type | some v ↦ k v ]) B) [
              | none ↦ Leads-throw missing_or_bad_type (λ f h. h)
              | some v ↦ p v
            ]

  pub Leads-save_keys :
      (fs : FileSystem) (msg cert key : Text)
      → Leads (Has []) (save_keys fs msg cert key) (λ f. Inv b s f × KeysSaved s f.files)
  unfolding save_keys
  Leads-save_keys fs msg cert key =
      Leads-with_state (λ g h. h.0)
        λ g e.
          let all_of_it = g.settings.official_certificates_file_name in
          let certificate = g.settings.official_certificate_pem_file_name in
          let private_key = g.settings.official_private_pem_file_name in
          let one = all_of_it ∷ [] in
          let two = certificate ∷ one in
          let three = private_key ∷ two in
          let four = all_of_it ∷ three in
          let five = certificate ∷ four in
          Leads-weaken {B = Has (private_key ∷ five)}
            (λ f h. (
              h.0,
              record {
                all_of_it =
                    subst (λ t. Exists t.official_certificates_file_name f.files) e h.1.1.1.0;
                certificate =
                    subst (λ t. Exists t.official_certificate_pem_file_name f.files) e h.1.1.0;
                private_key = subst (λ t. Exists t.official_private_pem_file_name f.files) e h.1.0;
              },
            ))
            (Leads-then (Leads-check_folder fs) (
              Leads-then (Leads-open_output [] fs.opens all_of_it) (
                Leads-then (Leads-open_output one fs.opens certificate) (
                  Leads-then (Leads-open_output two fs.opens private_key) (
                    Leads-then (Leads-write_output three all_of_it msg) (
                      Leads-then (Leads-write_output four certificate cert)
                        (Leads-write_output five private_key key)))))))
