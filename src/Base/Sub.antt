-- ===== src/Base/Sub.antt =====
-- Subsequences of a list.
use mathlib.Core.Path.{subst}
use mathlib.Core.List.{List, [], ◌∷◌, ◌++◌, append-nil}

-- The elements of the first list are some of those of the second, in its order.
pub data Sub {ℓ} {A : Type ℓ} : List A → List A → Type ℓ where
  nothing : Sub [] []
  keeps : {x : A} {xs ys : List A} → Sub xs ys → Sub (x ∷ xs) (x ∷ ys)
  drops : {y : A} {xs ys : List A} → Sub xs ys → Sub xs (y ∷ ys)

module _ {ℓ} {A : Type ℓ} where
  pub Sub-refl : (xs : List A) → Sub xs xs
  Sub-refl [] = nothing
  Sub-refl (x ∷ xs) = keeps (Sub-refl xs)

  pub Sub-empty : (xs : List A) → Sub [] xs
  Sub-empty [] = nothing
  Sub-empty (x ∷ xs) = drops (Sub-empty xs)

  pub Sub-append_both :
      (xs xs' : List A) {ys ys' : List A} → Sub xs ys → Sub xs' ys' → Sub (xs ++ xs') (ys ++ ys')
  Sub-append_both xs xs' nothing b = b
  Sub-append_both xs xs' (keeps {xs = zs} a) b = keeps (Sub-append_both zs xs' a b)
  Sub-append_both xs xs' (drops a) b = drops (Sub-append_both xs xs' a b)

  pub Sub-trans : (xs ys zs : List A) → Sub xs ys → Sub ys zs → Sub xs zs
  Sub-trans xs ys zs a nothing = a
  Sub-trans xs ys zs (keeps {x = x} {xs = ps} {ys = qs} a) (keeps {ys = rs} b) =
      keeps (Sub-trans ps qs rs a b)
  Sub-trans xs ys zs (drops {ys = qs} a) (keeps {ys = rs} b) = drops (Sub-trans xs qs rs a b)
  Sub-trans xs ys zs a (drops {ys = rs} b) = drops (Sub-trans xs ys rs a b)

  pub Sub-front : (xs more : List A) → Sub xs (xs ++ more)
  Sub-front xs more =
      subst (λ l. Sub l (xs ++ more)) (append-nil xs)
        (Sub-append_both xs [] (Sub-refl xs) (Sub-empty more))
