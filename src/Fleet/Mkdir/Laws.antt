-- ===== src/Fleet/Mkdir/Laws.antt =====
-- What `Mkdir::mkdir` leaves (AwsFleetProv/AwsFleetProv.cpp).
use shapeware.Base.{
  ◌≡◌, refl, ap, Bool, true, false, List, [], ◌∷◌, ◌++◌, Bool-cases, inl, inr, arith, ℕ, sym, ◌∙◌,
  subst,
}
use shapeware.Text.{Text, text_eq_iff}
use shapeware.Fleet.Mkdir.{folder_exists, make_levels, root_of, split_path, mkdir}

-- The second list has all folders of the first.
Grows : List Text → List Text → Type 0
Grows before after = (f : Text) → folder_exists f before ≡ true → folder_exists f after ≡ true

Grows-new : (p : Text) (folders : List Text) → Grows folders (p ∷ folders)
unfolding Grows folder_exists
Grows-new p folders f h = ground arith

new_exists : (p : Text) (folders : List Text) → folder_exists p (p ∷ folders) ≡ true
unfolding folder_exists
new_exists p folders = ground (arith, text_eq_iff p p)

Grows-refl : (folders : List Text) → Grows folders folders
unfolding Grows
Grows-refl folders f h = h

module _ (makes : Text → Bool) where
  make_levels-Grows :
      (levels : List Text) (current : Text) (folders : List Text)
      → Grows folders (make_levels makes levels current folders).1
  unfolding Grows make_levels
  make_levels-Grows [] current folders f h = h
  make_levels-Grows ([] ∷ levels) current folders f h = make_levels-Grows levels current folders f h
  make_levels-Grows ((c ∷ level) ∷ levels) current folders f h =
      let p = current ++ c ∷ level in
      let next = p ++ b'/' ∷ [] in
      elim (Bool-cases (folder_exists p folders)) [
        | inl e ↦ ground (arith, e, make_levels-Grows levels next folders f h)
        | inr e ↦ elim (Bool-cases (makes p)) [
          | inl m ↦
              ground (
                arith,
                e,
                m,
                make_levels-Grows levels next (p ∷ folders) f (Grows-new p folders f h),
              )
          | inr m ↦ ground (arith, e, m, h)
        ]
      ]

  make_levels-true :
      (levels : List Text) (current : Text) (folders : List Text)
      → ((t : Text) → makes t ≡ true)
      → (make_levels makes levels current folders).0 ≡ true
  unfolding make_levels
  make_levels-true [] current folders w = refl
  make_levels-true ([] ∷ levels) current folders w = make_levels-true levels current folders w
  make_levels-true ((c ∷ level) ∷ levels) current folders w =
      let p = current ++ c ∷ level in
      let next = p ++ b'/' ∷ [] in
      ground (
        arith,
        w p,
        make_levels-true levels next folders w,
        make_levels-true levels next (p ∷ folders) w,
      )

  level_found :
      (levels : List Text) (current : Text) (folders : List Text) (c : ℕ) (level : Text)
      → folder_exists (current ++ c ∷ level) folders ≡ true
      → make_levels makes ((c ∷ level) ∷ levels) current folders
        ≡ make_levels makes levels ((current ++ c ∷ level) ++ b'/' ∷ []) folders
  unfolding make_levels
  level_found levels current folders c level e = rw (e, make_levels) refl

  level_made :
      (levels : List Text) (current : Text) (folders : List Text) (c : ℕ) (level : Text)
      → folder_exists (current ++ c ∷ level) folders ≡ false
      → makes (current ++ c ∷ level) ≡ true
      → make_levels makes ((c ∷ level) ∷ levels) current folders
        ≡ make_levels makes levels
            ((current ++ c ∷ level) ++ b'/' ∷ [])
            ((current ++ c ∷ level) ∷ folders)
  unfolding make_levels
  level_made levels current folders c level e m = rw (e, make_levels) (rw m refl)

make_levels-again :
    (makes again : Text → Bool) (levels : List Text) (current : Text) (folders later : List Text)
    → (make_levels makes levels current folders).0 ≡ true
    → Grows (make_levels makes levels current folders).1 later
    → make_levels again levels current later ≡ (true, later)
unfolding make_levels Grows
make_levels-again makes again [] current folders later h g = refl
make_levels-again makes again ([] ∷ levels) current folders later h g =
    make_levels-again makes again levels current folders later h g
make_levels-again makes again ((c ∷ level) ∷ levels) current folders later h g =
    let p = current ++ c ∷ level in
    let next = p ++ b'/' ∷ [] in
    elim (Bool-cases (folder_exists p folders)) [
      | inl e ↦
          let same = level_found makes levels current folders c level e in
          let g' = subst (λ r. Grows r.1 later) same g in
          level_found again levels current later c level
            (g' p (make_levels-Grows makes levels next folders p e))
          ∙ make_levels-again makes again levels next folders later (ap (λ r. r.0) (sym same) ∙ h)
              g'
      | inr e ↦ elim (Bool-cases (makes p)) [
        | inl m ↦
            let same = level_made makes levels current folders c level e m in
            let g' = subst (λ r. Grows r.1 later) same g in
            level_found again levels current later c level
              (g' p (make_levels-Grows makes levels next (p ∷ folders) p (new_exists p folders)))
            ∙ make_levels-again makes again levels next (p ∷ folders) later
                (ap (λ r. r.0) (sym same) ∙ h) g'
        | inr m ↦ ground (arith, e, m, h)
      ]
    ]

-- `mkdir` keeps all folders, succeeds where the system makes each folder that it is asked for, and
-- where it succeeded, a further call on the same path succeeds without making a folder, whatever the
-- system would make then.
mkdir-again :
    (makes again : Text → Bool) (path : Text) (folders : List Text)
    → let (done, after) = mkdir makes path folders in
      ((f : Text) → folder_exists f folders ≡ true → folder_exists f after ≡ true)
      × ((((t : Text) → makes t ≡ true) → done ≡ true)
          × (done ≡ true → mkdir again path after ≡ (true, after)))
unfolding mkdir Grows
mkdir-again makes again path folders =
    let levels = split_path path in
    let root = root_of path in
    (
      make_levels-Grows makes levels root folders,
      (
        make_levels-true makes levels root folders,
        λ h.
            make_levels-again makes again levels root folders
              (make_levels makes levels root folders).1 h (Grows-refl _),
      ),
    )
