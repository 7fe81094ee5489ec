-- ===== src/Mqtt/Topic/Levels.antt =====
-- `tokenizeTopic` splits a topic at its slashes (include/mqtt_utils.h).
use shapeware.Base.{
  ℕ, zero, suc, ◌<◌, ◌≡◌, refl, sym, ap, ◌∙◌, inl, inr, false, List, [], ◌∷◌, ◌++◌, none, some,
  length, All, append_assoc, arith, ◌==◌, if◌then◌else◌, Option-cases, Bool-cases,
}
use shapeware.Text.{Text, has_byte}
use shapeware.Mqtt.Topic.{slash, find_byte, take, drop, tokenize_loop, tokenize_topic}

abbrev pub cons_first : ℕ → List Text → List Text
cons_first c [] = (c ∷ []) ∷ []
cons_first c (l ∷ ls) = (c ∷ l) ∷ ls

-- The levels of a topic, by recursion on its bytes.
unfoldable pub levels : ℕ → Text → List Text
levels d [] = [] ∷ []
levels d (c ∷ s) = let rest = levels d s in if c == d then [] ∷ rest else cons_first c rest

-- The levels put together again.
pub join : ℕ → List Text → Text
join d [] = []
join d (l ∷ []) = l
join d (l ∷ m ∷ ls) = l ++ d ∷ join d (m ∷ ls)

abbrev pub Lacks : ℕ → Text → Type 0
Lacks c s = has_byte c s ≡ false

levels_unsplit : (d : ℕ) (s : Text) → find_byte d s ≡ none → levels d s ≡ s ∷ []
unfolding levels find_byte
levels_unsplit d [] h = refl
levels_unsplit d (c ∷ s) h = ground (arith, levels_unsplit d s)

levels_split :
    (d : ℕ) (s : Text) (p : ℕ)
    → find_byte d s ≡ some p
    → (levels d s ≡ take p s ∷ levels d (drop (suc p) s)) × (length (drop (suc p) s) < length s)
unfolding levels find_byte
levels_split d [] p h = cc
levels_split d (c ∷ s) zero h = ground arith
levels_split d (c ∷ s) (suc p) h = ground (arith, levels_split d s p)

tokenize_loop-levels :
    (fuel d : ℕ) (s : Text) (retval : List Text)
    → length s < fuel
    → tokenize_loop fuel d s retval ≡ retval ++ levels d s
unfolding tokenize_loop
tokenize_loop-levels zero d s retval h = elim h [ ]
tokenize_loop-levels (suc fuel) d s retval h = elim (Option-cases (find_byte d s)) [
  | inl e ↦ rw (e, tokenize_loop) (rw (levels_unsplit d s e))
  | inr (p, e) ↦
      let (split, shorter) = levels_split d s p e in
      rw (e, tokenize_loop)
        (tokenize_loop-levels fuel d (drop (suc p) s) (retval ++ take p s ∷ []) (omega arith)
          ∙ append_assoc retval (take p s ∷ []) (levels d (drop (suc p) s))
          ∙ ap (λ l. retval ++ l) (sym split))
]

-- The loop of `tokenizeTopic` ends within its fuel, with the levels of the topic.
pub tokenize_topic-levels : (s : Text) → tokenize_topic s ≡ levels slash s
unfolding tokenize_topic
tokenize_topic-levels s = tokenize_loop-levels (suc (length s)) slash s [] (omega arith)

cons_first-join : (d c : ℕ) (ls : List Text) → join d (cons_first c ls) ≡ c ∷ join d ls
unfolding join
cons_first-join d c [] = refl
cons_first-join d c (l ∷ []) = refl
cons_first-join d c (l ∷ m ∷ ls) = refl

cons_first-nonempty :
    (c : ℕ) (ls : List Text) → (m : Text) × (ms : List Text) × (cons_first c ls ≡ m ∷ ms)
cons_first-nonempty c [] = (c ∷ [], [], refl)
cons_first-nonempty c (l ∷ ls) = (c ∷ l, ls, refl)

pub levels-nonempty : (d : ℕ) (s : Text) → (l : Text) × (ls : List Text) × (levels d s ≡ l ∷ ls)
unfolding levels
levels-nonempty d [] = ([], [], refl)
levels-nonempty d (c ∷ s) = elim (Bool-cases (c == d)) [
  | inl e ↦ rw e ([], levels d s, refl)
  | inr e ↦ rw e (cons_first-nonempty c (levels d s))
]

pub join-levels : (d : ℕ) (s : Text) → join d (levels d s) ≡ s
unfolding levels join
join-levels d [] = refl
join-levels d (c ∷ s) =
    ground (arith, join-levels d s, levels-nonempty d s, cons_first-join d c (levels d s))

All-cons_first :
    (d c : ℕ) (ls : List Text)
    → (c == d) ≡ false
    → All (Lacks d) ls
    → All (Lacks d) (cons_first c ls)
All-cons_first d c [] e h = ground arith
All-cons_first d c (l ∷ ls) e h = ground arith

levels-Lacks : (d : ℕ) (s : Text) → All (Lacks d) (levels d s)
unfolding levels
levels-Lacks d [] = (refl, tt)
levels-Lacks d (c ∷ s) = ground (arith, levels-Lacks d s, All-cons_first d c (levels d s))

pub levels-append :
    (d : ℕ) (l : Text) (s : Text) → Lacks d l → levels d (l ++ d ∷ s) ≡ l ∷ levels d s
unfolding levels
levels-append d [] s h = ground arith
levels-append d (c ∷ l) s h = ground (arith, levels-append d l s)

cons_first-append :
    (c : ℕ) (l : Text) (ls ms : List Text)
    → cons_first c ((l ∷ ls) ++ ms) ≡ cons_first c (l ∷ ls) ++ ms
cons_first-append c l ls ms = refl

-- A slash between two texts ends the levels of the first.
pub levels-append_slash : (d : ℕ) (p s : Text) → levels d (p ++ d ∷ s) ≡ levels d p ++ levels d s
unfolding levels
levels-append_slash d [] s = ground arith
levels-append_slash d (c ∷ p) s =
    let (l, ls, e) = levels-nonempty d p in
    ground (arith, levels-append_slash d p s, e, cons_first-append c l ls (levels d s))

pub levels-injective : (d : ℕ) (s t : Text) → levels d s ≡ levels d t → s ≡ t
levels-injective d s t e = sym (join-levels d s) ∙ ap (join d) e ∙ join-levels d t

levels_single : (d : ℕ) (l : Text) → Lacks d l → levels d l ≡ l ∷ []
unfolding levels
levels_single d [] h = refl
levels_single d (c ∷ l) h = ground (arith, levels_single d l)

levels-join :
    (d : ℕ) (l : Text) (ls : List Text)
    → All (Lacks d) (l ∷ ls)
    → levels d (join d (l ∷ ls)) ≡ l ∷ ls
unfolding join
levels-join d l [] h = levels_single d l h.0
levels-join d l (m ∷ ls) h =
    levels-append d l (join d (m ∷ ls)) h.0 ∙ ap (λ t. l ∷ t) (levels-join d m ls h.1)

-- The tokens of a topic hold no slash, and put together with slashes they are the topic.
join-tokenize_topic :
    (s : Text) → (join slash (tokenize_topic s) ≡ s) × All (Lacks slash) (tokenize_topic s)
join-tokenize_topic s = rw (tokenize_topic-levels s) (join-levels slash s, levels-Lacks slash s)

-- Tokens that hold no slash, one or more of them, are got back from the topic that they make.
pub tokenize_topic-join :
    (l : Text) (ls : List Text)
    → All (Lacks slash) (l ∷ ls)
    → tokenize_topic (join slash (l ∷ ls)) ≡ l ∷ ls
tokenize_topic-join l ls h = tokenize_topic-levels (join slash (l ∷ ls)) ∙ levels-join slash l ls h
