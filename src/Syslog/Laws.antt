-- ===== src/Syslog/Laws.antt =====
-- Which messages are logged after a configuration, and the name of the file that they show
-- (SyslogLogger/SyslogLogger.cpp).
use shapeware.Base.{
  ℕ, subst, ◌≡◌, ◌⊎◌, inl, inr, refl, sym, ap, true, false, not, List, [], ◌∷◌, ◌++◌, Option, none,
  some, arith, if◌then◌else◌, Bool-cases, Option-cases,
}
use shapeware.Base.Int.{ℤ, int_less}
use shapeware.Text.{Text}
use shapeware.StdMap.{StdMap, find, assign, same}
use shapeware.StdMap.Keys.{int_order}
use shapeware.StdMap.Laws.{find-assign}
use shapeware.Syslog.{
  Logger, Levels, Verbosity, is_valid, has_separator, is_separator, base_name, set_level,
  set_levels, modify,
}

-- A directory: nothing, or a text that ends with a separator.
abbrev pub IsDirectory : Text → Type 0
IsDirectory dir =
    (dir ≡ [])
    ⊎ ((sep : ℕ) × ((before : Text) × ((dir ≡ before ++ sep ∷ []) × (is_separator sep ≡ true))))

-- The name of a file has no separator, and stands in the path behind its directory.
abbrev pub IsSplit : Text → Text → Type 0
IsSplit path name =
    (has_separator name ≡ false) × ((dir : Text) × ((path ≡ dir ++ name) × IsDirectory dir))

IsSplit-further :
    (c : ℕ) (s : Text)
    → has_separator s ≡ true
    → IsSplit s (base_name s)
    → IsSplit (c ∷ s) (base_name s)
IsSplit-further c s more (clean, (dir, (split, inl start))) =
    absurd (ground (arith, more, clean, split, start))
IsSplit-further c s more (clean, (dir, (split, inr (sep, (before, (ends, is_sep)))))) = (
  clean,
  (c ∷ dir, (ap (λ x. c ∷ x) split, inr (sep, (c ∷ before, (ap (λ x. c ∷ x) ends, is_sep))))),
)

base_name-IsSplit : (path : Text) → IsSplit path (base_name path)
unfolding base_name
base_name-IsSplit [] = (refl, ([], (refl, inl refl)))
base_name-IsSplit (c ∷ s) = elim (Bool-cases (has_separator s)) [
  | inl more ↦
      let e : base_name (c ∷ s) ≡ base_name s = ground (arith, more) in
      subst (IsSplit (c ∷ s)) (sym e) (IsSplit-further c s more (base_name-IsSplit s))
  | inr last ↦ elim (Bool-cases (is_separator c)) [
    | inl sep ↦
        let e : base_name (c ∷ s) ≡ s = ground (arith, last, sep) in
        subst (IsSplit (c ∷ s)) (sym e) (last, (c ∷ [], (refl, inr (c, ([], (refl, sep))))))
    | inr other ↦
        let e : base_name (c ∷ s) ≡ c ∷ s = ground (arith, last, other) in
        subst (IsSplit (c ∷ s)) (sym e) (ground (arith, last, other), ([], (refl, inl refl)))
  ]
]

module _ (levels : Levels) where
  -- The channel and the level of an entry, where both can be read and the level has a number.
  abbrev pub entry_of : Verbosity → Option (ℤ × ℤ)
  entry_of v = elim v.channel [
    | none ↦ none
    | some channel ↦ elim v.level [
      | none ↦ none
      | some name ↦ elim (levels.str2enum name) [ none ↦ none | some level ↦ some (channel, level) ]
    ]
  ]

  -- The bound of one channel: the last entry for it counts, of those before the first that cannot be
  -- read, and where there is none, what it was before.
  pub bound_after : ℤ → List Verbosity → Option ℤ → Option ℤ
  bound_after chan [] old = old
  bound_after chan (v ∷ vs) old = elim (entry_of v) [
    | none ↦ old
    | some (channel, level) ↦ bound_after chan vs (if same chan channel then some level else old)
  ]

  set_level-none :
      (v : Verbosity) (m : StdMap ℤ ℤ)
      → entry_of v ≡ none
      → (e : Text) × (set_level levels v m ≡ (some e, m))
  unfolding set_level
  set_level-none v m h = elim (Option-cases v.channel) [
    | inl c ↦ (levels.missing_member, ground arith)
    | inr (channel, c) ↦ elim (Option-cases v.level) [
      | inl l ↦ (levels.missing_member, ground arith)
      | inr (name, l) ↦ (levels.unknown_level name, ground arith)
    ]
  ]

  set_level-some :
      (v : Verbosity) (m : StdMap ℤ ℤ) (channel level : ℤ)
      → entry_of v ≡ some (channel, level)
      → set_level levels v m ≡ (none, assign channel level m)
  unfolding set_level
  set_level-some v m channel level h = ground arith

  set_levels-bound :
      (chan : ℤ) (vs : List Verbosity) (m : StdMap ℤ ℤ)
      → find chan (set_levels levels vs m).1 ≡ bound_after chan vs (find chan m)
  unfolding set_levels bound_after
  set_levels-bound chan [] m = refl
  set_levels-bound chan (v ∷ vs) m = elim (Option-cases (entry_of v)) [
    | inl e ↦ let (text, failed) = set_level-none v m e in ground (arith, e, failed)
    | inr ((channel, level), e) ↦
        let m' = assign channel level m in
        ground (
          arith,
          e,
          set_level-some v m channel level e,
          set_levels-bound chan vs m',
          find-assign chan channel level m,
        )
  ]

  -- After a `modify` with entries, a message is logged exactly if its level is at most the bound of
  -- its channel: the last entry for the channel counts, of those before the first that cannot be
  -- read, and where there is none, the bound that the channel had before.
  pub modify-is_valid :
      (vs : List Verbosity) (level chan : ℤ) (l : Logger)
      → is_valid level chan (modify levels (some (some vs)) l)
        ≡ elim (bound_after chan vs (find chan l.trace_level_map)) [
          | none ↦ false
          | some bound ↦ not (int_less bound level)
        ]
  unfolding modify is_valid
  modify-is_valid vs level chan l = rw (set_levels-bound chan vs l.trace_level_map, is_valid) refl
