-- ===== src/Mqtt/Topic.antt =====
-- Topics: `tokenizeTopic` (include/mqtt_utils.h) and the choice of the handlers of a received
-- message in `msgarrvd` (MqttService/MqttService.cpp).
pub mod Levels
pub mod Wildcards
pub mod Matching
pub mod Hash
use shapeware.Base.{
  ℕ, zero, suc, ◌+◌, Bool, true, false, ◌&&◌, List, [], ◌∷◌, ◌++◌, Option, none, some, length, ◌==◌,
  if◌then◌else◌,
}
use shapeware.Text.{Text, text_eq, has_byte, starts_with, codes}
use shapeware.StdMap.{StdMap}

abbrev pub slash : ℕ
slash = b'/'

abbrev pub plus : ℕ
plus = b'+'

abbrev pub hash : ℕ
hash = b'#'

-- `s.find(d)`; `none` for `npos`
unfoldable pub find_byte : ℕ → Text → Option ℕ
find_byte d [] = none
find_byte d (c ∷ s) =
    if c == d then some 0 else elim (find_byte d s) [ none ↦ none | some i ↦ some (suc i) ]

-- `s.substr(0, n)`
abbrev pub take : ℕ → Text → Text
take zero s = []
take (suc n) [] = []
take (suc n) (c ∷ s) = c ∷ take n s

-- `s.erase(0, n)`
abbrev pub drop : ℕ → Text → Text
drop zero s = s
drop (suc n) [] = []
drop (suc n) (c ∷ s) = drop n s

-- The loop of `tokenizeTopic`, each round of which removes a byte or more from `s`. What it returns
-- when the fuel runs out is never reached: the caller gives one more than the length of `s`.
unfoldable pub tokenize_loop : ℕ → ℕ → Text → List Text → List Text
tokenize_loop zero d s retval = retval
tokenize_loop (suc fuel) d s retval = elim (find_byte d s) [
  | none ↦ retval ++ s ∷ []
  | some p ↦ tokenize_loop fuel d (drop (suc p) s) (retval ++ take p s ∷ [])
]

unfoldable pub tokenize_topic : Text → List Text
unfolding tokenize_loop find_byte
tokenize_topic tokens = tokenize_loop (suc (length tokens)) slash tokens []

-- The last byte of a non-empty text and what stands before it.
unfoldable pub split_last : ℕ → Text → Text × ℕ
split_last c [] = ([], c)
split_last c (d ∷ s) = let (front, last) = split_last d s in (c ∷ front, last)

-- The test for the `#` wildcard: `none` for an empty filter, at which the code reads
-- `topic2[size_t(-1)]`, which is undefined.
unfoldable pub hash_matches : Text → Text → Option Bool
unfolding split_last
hash_matches [] topic = none
hash_matches (c ∷ s) topic =
    let (front, last) = split_last c s in some (last == hash && starts_with front topic)

-- The loop over the levels of the filter, the first argument. The levels of the topic cannot run
-- out first, since their numbers are equal.
unfoldable pub levels_match : List Text → List Text → Bool
levels_match [] ts = true
levels_match (f ∷ fs) [] = false
levels_match (f ∷ fs) (t ∷ ts) =
    let rest = levels_match fs ts in
    if text_eq f (plus ∷ []) then rest else if text_eq f t then rest else false

-- The test for the `+` wildcard.
unfoldable pub plus_matches : Text → Text → Bool
unfolding tokenize_topic levels_match
plus_matches filter topic =
    has_byte plus filter
    && (length (tokenize_topic topic) == length (tokenize_topic filter)
        && levels_match (tokenize_topic filter) (tokenize_topic topic))

abbrev pub calls_if {ℓ} : {A : Type ℓ} → Bool → A → List A
calls_if true a = a ∷ []
calls_if false a = []

-- The calls that one entry of `m_onMessageHndlMap` gets for a message.
unfoldable pub entry_calls {ℓ} : {H : Type ℓ} → Text → Text → H → Option (List H)
unfolding hash_matches plus_matches
entry_calls topic filter h = elim (hash_matches filter topic) [
  | none ↦ none
  | some hashed ↦ some (
      calls_if (text_eq filter topic) h
      ++ (calls_if hashed h ++ calls_if (plus_matches filter topic) h))
]

-- The loop over `m_onMessageHndlMap`: the handlers called, in order; `none` where undefined.
unfoldable pub dispatch {ℓ} : {H : Type ℓ} → Text → List (Text × H) → Option (List H)
dispatch topic [] = some []
dispatch topic ((filter, h) ∷ m) =
    let rest = dispatch topic m in
    elim (entry_calls topic filter h) [
      | none ↦ none
      | some hs ↦ elim rest [ none ↦ none | some calls ↦ some (hs ++ calls) ]
    ]
