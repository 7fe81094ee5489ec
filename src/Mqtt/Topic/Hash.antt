-- ===== src/Mqtt/Topic/Hash.antt =====
-- Where `msgarrvd` differs from the topic filters of MQTT: the `#` wildcard
-- (MqttService/MqttService.cpp).
use shapeware.Base.{
  ℕ, ◌≡◌, ◌≢◌, refl, sym, ap, ◌∙◌, true, false, List, [], ◌∷◌, ◌++◌, some, arith, ◌==◌,
  append_assoc, subst,
}
use shapeware.Text.{Text, has_byte, starts_with}
use shapeware.Mqtt.Topic.{slash, plus, hash, entry_calls}
use shapeware.Mqtt.Topic.Levels.{levels, levels-append_slash}
use shapeware.Mqtt.Topic.Wildcards.{
  accepts, plus_matches-agree, plus_matches-hash, split_last-append, starts_with_longer,
  starts_with-append, has_byte-append,
}
use shapeware.Mqtt.Topic.Matching.{Matches, MatchesTopic, all_levels, same_level, entry_calls-value}

Matches-all_below : (ls : List Text) → Matches (ls ++ (hash ∷ []) ∷ []) ls
Matches-all_below [] = all_levels refl refl
Matches-all_below (l ∷ ls) = same_level refl (Matches-all_below ls)

parent-Matches : (p : Text) → Matches (levels slash p ++ levels slash (hash ∷ [])) (levels slash p)
unfolding levels
parent-Matches p = Matches-all_below (levels slash p)

accepts_prefix :
    (c : ℕ) (s topic : Text)
    → has_byte plus (c ∷ s) ≡ false
    → accepts c (s ++ slash ∷ hash ∷ []) topic ≡ starts_with ((c ∷ s) ++ slash ∷ []) topic
accepts_prefix c s topic n =
    ground (arith, split_last-append c s slash hash, has_byte-append plus s (slash ∷ hash ∷ []))

has_byte_parts :
    (b : ℕ) (s t : Text)
    → has_byte b (s ++ t) ≡ false
    → (slash == b) ≡ false
    → (has_byte b s ≡ false) × (has_byte b (s ++ slash ∷ t) ≡ false)
has_byte_parts b s t n ne = ground (arith, has_byte-append b s t, has_byte-append b s (slash ∷ t))

-- For a non-empty topic `p` without wildcards, the filter `p/#` gets, once, every message to a
-- topic without wildcards that begins with `p/`, and it gets no message to `p` itself, although by
-- the rules of MQTT it matches `p` too.
pub hash-misses_parent {ℓ} :
    {H : Type ℓ} (p r : Text) (h : H)
    → p ≢ []
    → has_byte plus (p ++ r) ≡ false
    → has_byte hash (p ++ r) ≡ false
    → (entry_calls (p ++ slash ∷ r) (p ++ slash ∷ hash ∷ []) h ≡ some (h ∷ []))
      × (entry_calls p (p ++ slash ∷ hash ∷ []) h ≡ some [])
      × MatchesTopic (p ++ slash ∷ hash ∷ []) p
hash-misses_parent [] r h ne a b = absurd (ne refl)
hash-misses_parent (c ∷ s) r h ne a b =
    let (a', a'') = has_byte_parts plus (c ∷ s) r a refl in
    let (b', b'') = has_byte_parts hash (c ∷ s) r b refl in
    (
      entry_calls-value ((c ∷ s) ++ slash ∷ r) c (s ++ slash ∷ hash ∷ []) h a'' b'' (
          accepts_prefix c s ((c ∷ s) ++ slash ∷ r) a'
          ∙ ap (starts_with ((c ∷ s) ++ slash ∷ [])) (sym (append_assoc (c ∷ s) (slash ∷ []) r))
          ∙ starts_with-append ((c ∷ s) ++ slash ∷ []) r),
      entry_calls-value (c ∷ s) c (s ++ slash ∷ hash ∷ []) h a' b'
          (accepts_prefix c s (c ∷ s) a' ∙ starts_with_longer (c ∷ s) slash []),
      record {
        match_levels =
            subst (λ ls. Matches ls (levels slash (c ∷ s)))
              (sym (levels-append_slash slash (c ∷ s) (hash ∷ []))) (parent-Matches (c ∷ s));
        not_hidden = ground (arith, a', b');
      },
    )

-- A filter with both wildcards gets no message at all to a topic without wildcards.
both_wildcards_get_nothing {ℓ} :
    {H : Type ℓ} (topic filter : Text) (h : H)
    → has_byte plus topic ≡ false
    → has_byte hash topic ≡ false
    → has_byte plus filter ≡ true
    → has_byte hash filter ≡ true
    → entry_calls topic filter h ≡ some []
both_wildcards_get_nothing topic [] h p t a b = cc
both_wildcards_get_nothing topic (c ∷ s) h p t a b =
    entry_calls-value topic c s h {b = false} p t
      (ground (arith, plus_matches-agree (c ∷ s) topic, plus_matches-hash (c ∷ s) topic))
