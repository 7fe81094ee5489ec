-- ===== src/Fleet/Mkdir.antt =====
-- `Mkdir::mkdir` (AwsFleetProv/AwsFleetProv.cpp), which makes a folder with those above it. The state
-- of the system is the list of its folders.
pub mod Laws
use shapeware.Base.{
  ℕ, ◌≡◌, Bool, true, false, ◌||◌, List, [], ◌∷◌, ◌++◌, map, if◌then◌else◌, ◌==◌, All, arith,
  Bool-cases, inl, inr,
}
use shapeware.Text.{Text, text_eq, is_empty}

abbrev add_byte : ℕ → List Text → List Text
add_byte c [] = (c ∷ []) ∷ []
add_byte c (level ∷ levels) = (c ∷ level) ∷ levels

-- The texts that `std::getline` takes with `/`.
unfoldable pub split_path : Text → List Text
split_path [] = []
split_path (c ∷ cs) = let rest = split_path cs in if c == b'/' then [] ∷ rest else add_byte c rest

unfoldable pub folder_exists : Text → List Text → Bool
folder_exists path [] = false
folder_exists path (f ∷ fs) = text_eq path f || folder_exists path fs

unfoldable pub root_of : Text → Text
root_of [] = []
root_of (c ∷ cs) = if c == b'/' then b'/' ∷ [] else []

-- `makes` is whether the system makes a folder.
module _ (makes : Text → Bool) where
  unfoldable pub make_levels : List Text → Text → List Text → Bool × List Text
  make_levels [] current_level folders = (true, folders)
  make_levels ([] ∷ levels) current_level folders = make_levels levels current_level folders
  make_levels ((c ∷ level) ∷ levels) current_level folders =
      let current = current_level ++ c ∷ level in
      elim (folder_exists current folders) [
        | true ↦ make_levels levels (current ++ b'/' ∷ []) folders
        | false ↦ elim (makes current) [
          | true ↦ make_levels levels (current ++ b'/' ∷ []) (current ∷ folders)
          | false ↦ (false, folders)
        ]
      ]

  unfoldable pub mkdir : Text → List Text → Bool × List Text
  unfolding split_path make_levels root_of
  mkdir path folders = make_levels (split_path path) (root_of path) folders
