-- ===== src/Mqtt/Topic/Wildcards.antt =====
-- Which wildcard tests of `msgarrvd` can pass together (MqttService/MqttService.cpp). A topic that
-- a message is published to has no wildcard in it.
use shapeware.Base.{
  ℕ, ◌≡◌, refl, Bool, true, false, not, ◌&&◌, ◌||◌, List, [], ◌∷◌, ◌++◌, some, length, arith, ◌==◌,
  if◌then◌else◌,
}
use shapeware.Text.{Text, text_eq, text_eq_iff, has_byte, starts_with}
use shapeware.Mqtt.Topic.{
  slash, plus, hash, split_last, levels_match, plus_matches, calls_if, entry_calls,
}
use shapeware.Mqtt.Topic.Levels.{levels, cons_first, tokenize_topic-levels}

abbrev pub any_has : ℕ → List Text → Bool
any_has c [] = false
any_has c (l ∷ ls) = has_byte c l || any_has c ls

any_has-cons_first :
    (c x : ℕ) (ls : List Text) → any_has c (cons_first x ls) ≡ (x == c || any_has c ls)
any_has-cons_first c x [] = ground arith
any_has-cons_first c x (l ∷ ls) = ground arith

pub any_has-levels : (c d : ℕ) (s : Text) → (c == d) ≡ false → any_has c (levels d s) ≡ has_byte c s
unfolding levels
any_has-levels c d [] h = refl
any_has-levels c d (x ∷ s) h =
    ground (arith, any_has-levels c d s, any_has-cons_first c x (levels d s))

levels_match-any_has :
    (c : ℕ) (fs ts : List Text)
    → (plus == c) ≡ false
    → levels_match fs ts ≡ true
    → any_has c fs ≡ true
    → any_has c ts ≡ true
unfolding levels_match
levels_match-any_has c [] ts p h a = cc
levels_match-any_has c (f ∷ fs) [] p h a = cc
levels_match-any_has c (f ∷ fs) (t ∷ ts) p h a =
    ground (arith, levels_match-any_has c fs ts, text_eq_iff f (plus ∷ []), text_eq_iff f t)

-- A filter with both wildcards never passes the `+` test: its `#` is compared as a plain byte.
pub plus_matches-hash :
    (filter topic : Text)
    → has_byte hash filter ≡ true
    → has_byte hash topic ≡ false
    → plus_matches filter topic ≡ false
unfolding plus_matches
plus_matches-hash filter topic h t = ground (
  arith,
  tokenize_topic-levels filter,
  tokenize_topic-levels topic,
  levels_match-any_has hash (levels slash filter) (levels slash topic),
  any_has-levels hash slash filter,
  any_has-levels hash slash topic,
)

pub has_byte-split_last :
    (b c : ℕ) (s : Text)
    → has_byte b (c ∷ s) ≡ (has_byte b (split_last c s).0 || (split_last c s).1 == b)
unfolding split_last
has_byte-split_last b c [] = ground arith
has_byte-split_last b c (d ∷ s) = ground (arith, has_byte-split_last b d s)

pub split_last-append :
    (c : ℕ) (s : Text) (x y : ℕ) → split_last c (s ++ x ∷ y ∷ []) ≡ (c ∷ s ++ x ∷ [], y)
unfolding split_last
split_last-append c [] x y = refl
split_last-append c (d ∷ s) x y = rw (split_last-append d s x y)

pub starts_with_longer : (p : Text) (x : ℕ) (r : Text) → starts_with (p ++ x ∷ r) p ≡ false
starts_with_longer [] x r = refl
starts_with_longer (c ∷ p) x r = ground (arith, starts_with_longer p x r)

pub starts_with-append : (p r : Text) → starts_with p (p ++ r) ≡ true
starts_with-append [] r = refl
starts_with-append (c ∷ p) r = ground (arith, starts_with-append p r)

pub has_byte-append : (b : ℕ) (s t : Text) → has_byte b (s ++ t) ≡ (has_byte b s || has_byte b t)
has_byte-append b [] t = refl
has_byte-append b (c ∷ s) t = ground (arith, has_byte-append b s t)

starts_with-has_byte :
    (b : ℕ) (p s : Text) → starts_with p s ≡ true → has_byte b p ≡ true → has_byte b s ≡ true
starts_with-has_byte b [] s h e = cc
starts_with-has_byte b (x ∷ p) [] h e = cc
starts_with-has_byte b (x ∷ p) (y ∷ s) h e = ground (arith, starts_with-has_byte b p s)

-- The levels agree one by one, a `+` in the filter with any level.
abbrev pub levels_agree : List Text → List Text → Bool
levels_agree [] [] = true
levels_agree [] (t ∷ ts) = false
levels_agree (f ∷ fs) [] = false
levels_agree (f ∷ fs) (t ∷ ts) = (text_eq f (plus ∷ []) || text_eq f t) && levels_agree fs ts

levels_match-agree :
    (fs ts : List Text) → (length ts == length fs && levels_match fs ts) ≡ levels_agree fs ts
unfolding levels_match
levels_match-agree [] [] = refl
levels_match-agree [] (t ∷ ts) = ground arith
levels_match-agree (f ∷ fs) [] = ground arith
levels_match-agree (f ∷ fs) (t ∷ ts) = ground (arith, levels_match-agree fs ts)

pub plus_matches-agree :
    (filter topic : Text)
    → plus_matches filter topic
      ≡ (has_byte plus filter && levels_agree (levels slash filter) (levels slash topic))
unfolding plus_matches
plus_matches-agree filter topic =
    rw (tokenize_topic-levels filter, tokenize_topic-levels topic)
      (rw (levels_match-agree (levels slash filter) (levels slash topic)))

abbrev pub ends_with_hash : ℕ → Text → Bool
ends_with_hash c s = (split_last c s).1 == hash

-- Whether the code calls the handler of a non-empty filter, `c ∷ s`, for a topic without wildcards.
abbrev pub accepts : ℕ → Text → Text → Bool
accepts c s topic =
    if has_byte plus (c ∷ s)
    then not (ends_with_hash c s) && levels_agree (levels slash (c ∷ s)) (levels slash topic)
    else if ends_with_hash c s
    then starts_with (split_last c s).0 topic
    else text_eq (c ∷ s) topic

-- For a topic without wildcards at most one of the three tests passes.
pub entry_calls-accepts {ℓ} :
    {H : Type ℓ} (topic : Text) (c : ℕ) (s : Text) (h : H)
    → has_byte plus topic ≡ false
    → has_byte hash topic ≡ false
    → entry_calls topic (c ∷ s) h ≡ some (calls_if (accepts c s topic) h)
unfolding entry_calls
entry_calls-accepts topic c s h p t = ground (
  arith,
  text_eq_iff (c ∷ s) topic,
  plus_matches-agree (c ∷ s) topic,
  plus_matches-hash (c ∷ s) topic,
  has_byte-split_last plus c s,
  has_byte-split_last hash c s,
  starts_with-has_byte plus (split_last c s).0 topic,
)
