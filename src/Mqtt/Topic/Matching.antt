-- ===== src/Mqtt/Topic/Matching.antt =====
-- The handlers that `msgarrvd` calls, against the topic filters of MQTT
-- (MqttService/MqttService.cpp).
use shapeware.Base.{
  ℕ, ◌≡◌, ◌≢◌, refl, sym, ap, ◌∙◌, Bool, true, false, List, [], ◌∷◌, some, arith, Bool-cases, ◌&&◌,
  ◌||◌, ◌==◌, ◌⊎◌, inl, inr,
}
use shapeware.Text.{Text, text_eq, text_eq_iff, has_byte, codes}
use shapeware.Mqtt.Topic.{
  slash, plus, hash, calls_if, entry_calls, tokenize_topic, levels_match, find_byte, split_last,
}
use shapeware.Mqtt.Topic.Levels.{levels, levels-injective}
use shapeware.Mqtt.Topic.Wildcards.{
  any_has, any_has-levels, levels_agree, accepts, entry_calls-accepts, has_byte-split_last,
}
use mathlib.Core.Bool.{false≢true}

-- How a topic filter of MQTT matches a topic level by level: `+` stands for one level, and `#`, the
-- last level of a filter, for any number of levels, none included. The first list has the levels of
-- a filter.
pub data Matches : List Text → List Text → Type 0 where
  ends : Matches [] []
  one_level :
      {f t : Text} {fs ts : List Text} → f ≡ plus ∷ [] → Matches fs ts → Matches (f ∷ fs) (t ∷ ts)
  same_level : {f t : Text} {fs ts : List Text} → f ≡ t → Matches fs ts → Matches (f ∷ fs) (t ∷ ts)
  all_levels : {f : Text} {fs ts : List Text} → f ≡ hash ∷ [] → fs ≡ [] → Matches (f ∷ fs) ts

-- A topic name that begins with `$`, and a filter that begins with a wildcard.
abbrev pub is_reserved : Text → Bool
is_reserved [] = false
is_reserved (c ∷ s) = c == b'$'

abbrev pub begins_wild : Text → Bool
begins_wild [] = false
begins_wild (c ∷ s) = c == plus || c == hash

-- The rules of MQTT: the levels match, and a filter that begins with a wildcard does not match a
-- topic that begins with `$`.
pub record MatchesTopic (filter topic : Text) : Type 0 where
  pub match_levels : Matches (levels slash filter) (levels slash topic)
  pub not_hidden : (begins_wild filter && is_reserved topic) ≡ false

pub agree-Matches : (fs ts : List Text) → levels_agree fs ts ≡ true → Matches fs ts
agree-Matches [] [] h = ends
agree-Matches [] (t ∷ ts) h = cc
agree-Matches (f ∷ fs) [] h = cc
agree-Matches (f ∷ fs) (t ∷ ts) h = elim (Bool-cases (text_eq f (plus ∷ []))) [
  | inl e ↦ one_level ((text_eq_iff f (plus ∷ [])).0 e) (agree-Matches fs ts (ground arith))
  | inr e ↦ same_level ((text_eq_iff f t).0 (ground arith)) (agree-Matches fs ts (ground arith))
]

Matches-agree :
    {fs ts : List Text} → any_has hash fs ≡ false → Matches fs ts → levels_agree fs ts ≡ true
Matches-agree n ends = refl
Matches-agree n (one_level {f = f} {t = t} {fs = fs} {ts = ts} e m) =
    ground (arith, Matches-agree {fs = fs} {ts = ts} (ground arith) m, text_eq_iff f (plus ∷ []))
Matches-agree n (same_level {f = f} {t = t} {fs = fs} {ts = ts} e m) =
    ground (arith, Matches-agree {fs = fs} {ts = ts} (ground arith) m, text_eq_iff f t)
Matches-agree n (all_levels {f = f} e g) = ground arith

plain_levels : (fs ts : List Text) → any_has plus fs ≡ false → levels_agree fs ts ≡ true → fs ≡ ts
plain_levels [] [] n h = refl
plain_levels [] (t ∷ ts) n h = cc
plain_levels (f ∷ fs) [] n h = cc
plain_levels (f ∷ fs) (t ∷ ts) n h =
    ground (arith, plain_levels fs ts, text_eq_iff f t, text_eq_iff f (plus ∷ []))

levels_agree_refl : (fs : List Text) → levels_agree fs fs ≡ true
levels_agree_refl [] = refl
levels_agree_refl (f ∷ fs) = ground (arith, levels_agree_refl fs, text_eq_iff f f)

-- Without a `#`, what the code accepts is agreement level by level.
accepts-agree :
    (c : ℕ) (s topic : Text)
    → has_byte hash (c ∷ s) ≡ false
    → accepts c s topic ≡ levels_agree (levels slash (c ∷ s)) (levels slash topic)
accepts-agree c s topic n = ground (
  arith,
  has_byte-split_last hash c s,
  text_eq_iff (c ∷ s) topic,
  levels_agree_refl (levels slash topic),
  plain_levels (levels slash (c ∷ s)) (levels slash topic),
  any_has-levels plus slash (c ∷ s),
  levels-injective slash (c ∷ s) topic,
)

pub entry_calls-value {ℓ} :
    {H : Type ℓ} (topic : Text) (c : ℕ) (s : Text) (h : H) {b : Bool}
    → has_byte plus topic ≡ false
    → has_byte hash topic ≡ false
    → accepts c s topic ≡ b
    → entry_calls topic (c ∷ s) h ≡ some (calls_if b h)
entry_calls-value topic c s h p t e =
    entry_calls-accepts topic c s h p t ∙ ap (λ b. some (calls_if b h)) e

-- For a topic without wildcards and a non-empty filter without `#`, that does not begin with `+`
-- where the topic begins with `$`, the handler is called once if the filter matches the topic by the
-- rules of MQTT, and not at all if it does not.
pub entry_calls-MatchesTopic {ℓ} :
    {H : Type ℓ} (topic filter : Text) (h : H)
    → has_byte plus topic ≡ false
    → has_byte hash topic ≡ false
    → filter ≢ []
    → has_byte hash filter ≡ false
    → (begins_wild filter && is_reserved topic) ≡ false
    → (MatchesTopic filter topic × (entry_calls topic filter h ≡ some (h ∷ [])))
      ⊎ ((¬ MatchesTopic filter topic) × (entry_calls topic filter h ≡ some []))
entry_calls-MatchesTopic topic [] h p t ne n v = absurd (ne refl)
entry_calls-MatchesTopic topic (c ∷ s) h p t ne n v =
    elim (Bool-cases (levels_agree (levels slash (c ∷ s)) (levels slash topic))) [
      | inl e ↦ inl (
        record {
          match_levels = agree-Matches (levels slash (c ∷ s)) (levels slash topic) e;
          not_hidden = v;
        },
        entry_calls-value topic c s h p t (accepts-agree c s topic n ∙ e),
      )
      | inr e ↦ inr (
        (λ m.
            false≢true
              (sym e ∙ Matches-agree (any_has-levels hash slash (c ∷ s) refl ∙ n) m.match_levels)),
        entry_calls-value topic c s h p t (accepts-agree c s topic n ∙ e),
      )
    ]

-- A filter that begins with `+` gets also the messages to a topic that begins with `$`, against the
-- rules of MQTT.
reserved_called :
    (entry_calls {H = ℕ} (codes "$SYS/x") (codes "+/x") 1 ≡ some (1 ∷ []))
    × (¬ MatchesTopic (codes "+/x") (codes "$SYS/x"))
unfolding entry_calls tokenize_topic levels_match find_byte split_last
reserved_called = (refl, λ m. cc (m.not_hidden))
