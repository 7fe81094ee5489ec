-- ===== src/StdMap.antt =====
-- `std::map` over a strict total order of its keys, as the list of its entries in the order of an
-- iteration. The services use it for their tokens, topics, connections and commands.
pub mod Laws
pub mod Keys
use shapeware.Base.{
  ℕ, ◌≡◌, Bool, true, false, ◌&&◌, not, List, [], ◌∷◌, Option, none, some, if◌then◌else◌, length,
}

-- The comparison `std::less` or `std::owner_less` of a key type, with what it promises.
pub record Less {ℓ} (K : Type ℓ) : Type ℓ where
  pub less : K → K → Bool
  pub less_irrefl : (a : K) → less a a ≡ false
  pub less_trans : (a b c : K) → less a b ≡ true → less b c ≡ true → less a c ≡ true
  pub less_total : (a b : K) → less a b ≡ false → less b a ≡ false → a ≡ b

abbrev pub StdMap {ℓ} : Type ℓ → Type ℓ → Type ℓ
StdMap K V = List (K × V)

-- Keys are the same where neither is less than the other.
abbrev pub same {ℓ} : {K : Type ℓ} ⦃o : Less K⦄ → K → K → Bool
same ⦃o⦄ a b = not (o.less a b) && not (o.less b a)

module _ {ℓ} {K V : Type ℓ} ⦃o : Less K⦄ where
  unfoldable pub find : K → StdMap K V → Option V
  find k [] = none
  find k ((j, v) ∷ m) = if same k j then some v else find k m

  -- `m[k] = v`
  unfoldable pub assign : K → V → StdMap K V → StdMap K V
  assign k v [] = (k, v) ∷ []
  assign k v ((j, w) ∷ m) =
      if o.less k j
      then (k, v) ∷ (j, w) ∷ m
      else if o.less j k
      then (j, w) ∷ assign k v m
      else (j, v) ∷ m

  -- `m.insert({k, v})`, which leaves an entry of the same key as it is
  unfoldable pub insert : K → V → StdMap K V → StdMap K V
  insert k v [] = (k, v) ∷ []
  insert k v ((j, w) ∷ m) =
      if o.less k j
      then (k, v) ∷ (j, w) ∷ m
      else if o.less j k
      then (j, w) ∷ insert k v m
      else (j, w) ∷ m

  unfoldable pub erase : K → StdMap K V → StdMap K V
  erase k [] = []
  erase k ((j, v) ∷ m) = if same k j then m else (j, v) ∷ erase k m

  abbrev pub Above : K → StdMap K V → Type ℓ
  Above k [] = Unit
  Above k ((j, v) ∷ m) = (o.less k j ≡ true) × Above k m

  -- The keys rise along the iteration, so each stands once.
  abbrev pub IsOrdered : StdMap K V → Type ℓ
  IsOrdered [] = Unit
  IsOrdered ((k, v) ∷ m) = Above k m × IsOrdered m
