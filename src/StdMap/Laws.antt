-- ===== src/StdMap/Laws.antt =====
-- What the clients of `std::map` rely on.
use shapeware.Base.{
  suc, ◌≤◌, ◌≡◌, ◌≢◌, ◌↔◌, refl, true, [], ◌∷◌, Option, none, some, if◌then◌else◌, length, arith,
}
use shapeware.StdMap.{Less, StdMap, same, find, assign, insert, erase, Above, IsOrdered}

module _ {ℓ} {K : Type ℓ} ⦃o : Less K⦄ where
  pub same_iff : (a b : K) → (same a b ≡ true) ↔ (a ≡ b)
  same_iff a b = ground (arith, o.less_irrefl a, o.less_total a b)

abbrev pub or_value {ℓ} : {V : Type ℓ} → Option V → V → V
or_value none v = v
or_value (some w) v = w

module _ {ℓ} {K V : Type ℓ} ⦃o : Less K⦄ where
  pub find-assign :
      (j k : K) (v : V) (m : StdMap K V)
      → find j (assign k v m) ≡ (if same j k then some v else find j m)
  unfolding find assign
  find-assign j k v [] = refl
  find-assign j k v ((i, w) ∷ m) =
      ground (arith, find-assign j k v m, o.less_total i k, same_iff j k, same_iff j i)

  find-Above : (k : K) (m : StdMap K V) → Above k m → find k m ≡ none
  unfolding find
  find-Above k [] h = refl
  find-Above k ((j, v) ∷ m) h = ground (arith, find-Above k m h.1)

  Above-trans : (j k : K) (m : StdMap K V) → o.less j k ≡ true → Above k m → Above j m
  Above-trans j k [] h a = tt
  Above-trans j k ((i, v) ∷ m) h a = (o.less_trans j k i h a.0, Above-trans j k m h a.1)

  pub find-insert :
      (j k : K) (v : V) (m : StdMap K V)
      → IsOrdered m
      → find j (insert k v m) ≡ (if same j k then some (or_value (find k m) v) else find j m)
  unfolding find insert
  find-insert j k v [] h = refl
  find-insert j k v ((i, w) ∷ m) h = ground (
    arith,
    find-insert j k v m h.1,
    o.less_total i k,
    o.less_irrefl k,
    same_iff j k,
    same_iff j i,
    same_iff k i,
    find-Above k m,
    Above-trans k i m,
  )

  pub find-erase :
      (j k : K) (m : StdMap K V)
      → IsOrdered m
      → find j (erase k m) ≡ (if same j k then none else find j m)
  unfolding find erase
  find-erase j k [] h = ground arith
  find-erase j k ((i, w) ∷ m) h =
      ground
        (arith, find-erase j k m h.1, find-Above i m h.0, same_iff j k, same_iff j i, same_iff k i)

  Above-assign :
      (j k : K) (v : V) (m : StdMap K V) → o.less j k ≡ true → Above j m → Above j (assign k v m)
  unfolding assign
  Above-assign j k v [] h a = (h, tt)
  Above-assign j k v ((i, w) ∷ m) h a = ground (arith, Above-assign j k v m h a.1)

  pub assign-IsOrdered : (k : K) (v : V) (m : StdMap K V) → IsOrdered m → IsOrdered (assign k v m)
  unfolding assign
  assign-IsOrdered k v [] h = (tt, tt)
  assign-IsOrdered k v ((i, w) ∷ m) h =
      ground (arith, assign-IsOrdered k v m h.1, Above-assign i k v m, Above-trans k i m)

  Above-insert :
      (j k : K) (v : V) (m : StdMap K V) → o.less j k ≡ true → Above j m → Above j (insert k v m)
  unfolding insert
  Above-insert j k v [] h a = (h, tt)
  Above-insert j k v ((i, w) ∷ m) h a = ground (arith, Above-insert j k v m h a.1)

  pub insert-IsOrdered : (k : K) (v : V) (m : StdMap K V) → IsOrdered m → IsOrdered (insert k v m)
  unfolding insert
  insert-IsOrdered k v [] h = (tt, tt)
  insert-IsOrdered k v ((i, w) ∷ m) h =
      ground (arith, insert-IsOrdered k v m h.1, Above-insert i k v m, Above-trans k i m)

  Above-erase : (j k : K) (m : StdMap K V) → Above j m → Above j (erase k m)
  unfolding erase
  Above-erase j k [] a = tt
  Above-erase j k ((i, w) ∷ m) a = ground (arith, Above-erase j k m a.1)

  pub erase-IsOrdered : (k : K) (m : StdMap K V) → IsOrdered m → IsOrdered (erase k m)
  unfolding erase
  erase-IsOrdered k [] h = tt
  erase-IsOrdered k ((i, w) ∷ m) h = ground (arith, erase-IsOrdered k m h.1, Above-erase i k m h.0)

  pub length-assign-le : (k : K) (v : V) (m : StdMap K V) → length (assign k v m) ≤ suc (length m)
  unfolding assign
  length-assign-le k v [] = omega arith
  length-assign-le k v ((i, w) ∷ m) = ground (arith, length-assign-le k v m)

  pub length-erase-le : (k : K) (m : StdMap K V) → length (erase k m) ≤ length m
  unfolding erase
  length-erase-le k [] = omega arith
  length-erase-le k ((i, w) ∷ m) = ground (arith, length-erase-le k m)

  pub find-assign_self : (k : K) (v : V) (m : StdMap K V) → find k (assign k v m) ≡ some v
  find-assign_self k v m = ground (arith, find-assign k k v m, same_iff k k)

  pub find-erase_self : (k : K) (m : StdMap K V) → IsOrdered m → find k (erase k m) ≡ none
  find-erase_self k m h = ground (arith, find-erase k k m h, same_iff k k)

  pub find-erase_ne :
      (j k : K) (m : StdMap K V) → IsOrdered m → j ≢ k → find j (erase k m) ≡ find j m
  find-erase_ne j k m h ne = ground (arith, find-erase j k m h, same_iff j k)
