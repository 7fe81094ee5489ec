-- ===== src/Fleet/Run/Quiet.antt =====
-- What the functions that the worker gave to the MQTT service leave as it is
-- (AwsFleetProv/AwsFleetProv.cpp).
use shapeware.Base.{
  ℕ, suc, ◌+◌, ◌≡◌, refl, ◌∙◌, Bool, true, false, List, [], ◌∷◌, ◌++◌, Option, none, some, arith,
  if◌then◌else◌,
}
use shapeware.Text.{Text, text_order}
use shapeware.StdMap.{assign}
use shapeware.Fleet.State.{
  Failure, missing_or_bad_type, cannot_open, FleetEvent, makes_folder, calls_provisioned,
  calls_error, uncaught, set_twice, dangling, Fleet, Document, Action, ◌>>◌, throw, modify, unless,
  with_state,
}
use shapeware.Fleet.Messages.{
  log, get_json_as_str, open_output, write_output, FileSystem, check_folder, save_keys,
}

-- How often `m_onProvisioned` or `m_onError` was called.
abbrev pub reports : List FleetEvent → ℕ
reports [] = 0
reports (calls_provisioned h d ∷ es) = suc (reports es)
reports (calls_error h e ∷ es) = suc (reports es)
reports (makes_folder path ∷ es) = reports es
reports (uncaught e ∷ es) = reports es
reports (set_twice ∷ es) = reports es
reports (dangling ∷ es) = reports es

pub reports-append :
    (es : List FleetEvent) (e : FleetEvent) → reports (es ++ e ∷ []) ≡ reports (e ∷ []) + reports es
reports-append [] e = omega arith
reports-append (calls_provisioned h d ∷ es) e = omega (arith, reports-append es e)
reports-append (calls_error h d ∷ es) e = omega (arith, reports-append es e)
reports-append (makes_folder path ∷ es) e = reports-append es e
reports-append (uncaught d ∷ es) e = reports-append es e
reports-append (set_twice ∷ es) e = reports-append es e
reports-append (dangling ∷ es) e = reports-append es e

pub record Quiet (f g : Fleet) : Type 0 where
  pub on_provisioned : g.on_provisioned ≡ f.on_provisioned
  pub on_error : g.on_error ≡ f.on_error
  pub phase : g.phase ≡ f.phase
  pub reports : reports g.events ≡ reports f.events

pub record Quiets (m : Action) : Type 0 where
  pub quiet : (f : Fleet) → Quiet f (m f).1

abbrev pub QuietEnd : Fleet → Option Failure × Fleet → Type 0
QuietEnd f x = Quiet f x.1

pub Quiet-refl : (f : Fleet) → Quiet f f
Quiet-refl f = record { on_provisioned = refl; on_error = refl; phase = refl; reports = refl }

pub Quiet-trans : {f g h : Fleet} → Quiet f g → Quiet g h → Quiet f h
Quiet-trans p q = record {
  on_provisioned = q.on_provisioned ∙ p.on_provisioned;
  on_error = q.on_error ∙ p.on_error;
  phase = q.phase ∙ p.phase;
  reports = q.reports ∙ p.reports;
}

pub Quiet-log : (e : FleetEvent) (f : Fleet) → reports (e ∷ []) ≡ 0 → Quiet f (log e f)
Quiet-log e f h = record {
  on_provisioned = refl;
  on_error = refl;
  phase = refl;
  reports = omega (arith, reports-append f.events e, h);
}

pub Quiet-if : {f g h : Fleet} (c : Bool) → Quiet f g → Quiet f h → Quiet f (if c then g else h)
Quiet-if true p q = p
Quiet-if false p q = q

pub Quiets-then : {m k : Action} → Quiets m → Quiets k → Quiets (m >> k)
unfolding ◌>>◌
Quiets-then {m} {k} p q = record {
  quiet = λ f.
      let (r, g) = m f in
      elim r
          as (λ x.
            Quiet f g
            → Quiet f
                (elim x as (λ y. Option Failure × Fleet) [ none ↦ k g | some e ↦ (some e, g) ]).1) [
                  | none ↦ λ w. Quiet-trans w (q.quiet g)
                  | some e ↦ λ w. w
                ]
        (p.quiet f);
}

pub Quiets-with_state : {k : Fleet → Action} → ((g : Fleet) → Quiets (k g)) → Quiets (with_state k)
unfolding with_state
Quiets-with_state p = record { quiet = λ f. (p f).quiet f }

pub Quiets-throw : (e : Failure) → Quiets (throw e)
unfolding throw
Quiets-throw e = record { quiet = λ f. Quiet-refl f }

pub Quiets-modify : (g : Fleet → Fleet) → ((f : Fleet) → Quiet f (g f)) → Quiets (modify g)
unfolding modify
Quiets-modify g w = record { quiet = w }

pub Quiets-unless : (c : Bool) (e : Failure) → Quiets (unless c e)
unfolding unless
Quiets-unless true e = record { quiet = λ f. Quiet-refl f }
Quiets-unless false e = record { quiet = λ f. Quiet-refl f }

pub Quiets-get_json_as_str :
    (doc : Document) (path : Text) (k : Text → Action)
    → ((v : Text) → Quiets (k v))
    → Quiets (get_json_as_str doc path k)
unfolding get_json_as_str
Quiets-get_json_as_str doc path k p =
    elim (doc.string_at path)
      as (λ o.
        Quiets (elim o as (λ x. Action) [ none ↦ throw missing_or_bad_type | some v ↦ k v ])) [
          | none ↦ Quiets-throw missing_or_bad_type
          | some v ↦ p v
        ]

pub Quiets-write_output : (n c : Text) → Quiets (write_output n c)
unfolding write_output
Quiets-write_output n c = record {
  quiet = λ f. record { on_provisioned = refl; on_error = refl; phase = refl; reports = refl };
}

pub Quiets-open_output : (opens : Text → Bool) (n : Text) → Quiets (open_output opens n)
unfolding open_output
Quiets-open_output opens n = record {
  quiet = λ f.
      elim (opens n)
        as (λ o. QuietEnd f (
          if o
          then (none, record f { files = assign n [] f.files })
          else (some (cannot_open n), f))) [
            | true ↦ record { on_provisioned = refl; on_error = refl; phase = refl; reports = refl }
            | false ↦ Quiet-refl f
          ];
}

Quiets-check_folder : (fs : FileSystem) → Quiets (check_folder fs)
unfolding check_folder
Quiets-check_folder fs = record {
  quiet = λ f.
      let path = f.settings.official_cert_store_path in
      elim (fs.folder_exists path)
        as (λ o. QuietEnd f (if o then (none, f) else (none, log (makes_folder path) f))) [
          | true ↦ Quiet-refl f
          | false ↦ Quiet-log (makes_folder path) f refl
        ];
}

pub Quiets-save_keys : (fs : FileSystem) (msg cert key : Text) → Quiets (save_keys fs msg cert key)
unfolding save_keys
Quiets-save_keys fs msg cert key = Quiets-with_state λ g.
    let s = g.settings in
    let opens = Quiets-open_output fs.opens in
    Quiets-then (Quiets-check_folder fs) (
      Quiets-then (opens s.official_certificates_file_name) (
        Quiets-then (opens s.official_certificate_pem_file_name) (
          Quiets-then (opens s.official_private_pem_file_name) (
            Quiets-then (Quiets-write_output s.official_certificates_file_name msg) (
              Quiets-then (Quiets-write_output s.official_certificate_pem_file_name cert)
                (Quiets-write_output s.official_private_pem_file_name key))))))
