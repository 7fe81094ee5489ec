-- ===== src/Text.antt =====
-- Byte strings, `std::string` and `std::basic_string<uint8_t>`, as lists of their bytes.
use Prim.Native.Char.{code}
use Prim.Native.String.{String}
use shapeware.Base.{
  ℕ, ◌≡◌, ◌↔◌, refl, Bool, true, false, ◌&&◌, ◌||◌, if◌then◌else◌, List, [], ◌∷◌, ◌++◌, arith, ltb,
  ◌==◌,
}
use shapeware.StdMap.{Less}

abbrev pub Text : Type 0
Text = List ℕ

-- The bytes of an ASCII literal.
abbrev pub codes : String → Text
codes String.[] = []
codes (String.◌∷◌ c s) = code c ∷ codes s

-- `==` of `std::string`
abbrev pub text_eq : Text → Text → Bool
text_eq [] [] = true
text_eq [] (y ∷ ys) = false
text_eq (x ∷ xs) [] = false
text_eq (x ∷ xs) (y ∷ ys) = x == y && text_eq xs ys

pub text_eq_iff : (s t : Text) → (text_eq s t ≡ true) ↔ (s ≡ t)
text_eq_iff [] [] = ground arith
text_eq_iff [] (y ∷ t) = ground arith
text_eq_iff (x ∷ s) [] = ground arith
text_eq_iff (x ∷ s) (y ∷ t) = ground (arith, text_eq_iff s t)

abbrev pub is_empty : Text → Bool
is_empty [] = true
is_empty (x ∷ xs) = false

-- `find(c) != npos`
abbrev pub has_byte : ℕ → Text → Bool
has_byte c [] = false
has_byte c (x ∷ xs) = x == c || has_byte c xs

-- `p` is a prefix of `s`: `p.compare(0, p.size(), s, 0, p.size()) == 0`
abbrev pub starts_with : Text → Text → Bool
starts_with [] s = true
starts_with (x ∷ xs) [] = false
starts_with (x ∷ xs) (y ∷ ys) = x == y && starts_with xs ys

-- The lexicographic order of `std::string`, by unsigned bytes.
abbrev pub text_less : Text → Text → Bool
text_less [] [] = false
text_less [] (y ∷ ys) = true
text_less (x ∷ xs) [] = false
text_less (x ∷ xs) (y ∷ ys) = ltb x y || (x == y && text_less xs ys)

pub text_less_irrefl : (s : Text) → text_less s s ≡ false
text_less_irrefl [] = refl
text_less_irrefl (x ∷ s) = ground (arith, text_less_irrefl s)

pub text_less_trans :
    (s t u : Text) → text_less s t ≡ true → text_less t u ≡ true → text_less s u ≡ true
text_less_trans [] [] u h k = cc
text_less_trans [] (y ∷ t) [] h k = cc
text_less_trans [] (y ∷ t) (z ∷ u) h k = refl
text_less_trans (x ∷ s) [] u h k = cc
text_less_trans (x ∷ s) (y ∷ t) [] h k = cc
text_less_trans (x ∷ s) (y ∷ t) (z ∷ u) h k = ground (arith, text_less_trans s t u)

pub text_less_total : (s t : Text) → text_less s t ≡ false → text_less t s ≡ false → s ≡ t
text_less_total [] [] h k = refl
text_less_total [] (y ∷ t) h k = cc
text_less_total (x ∷ s) [] h k = cc
text_less_total (x ∷ s) (y ∷ t) h k = ground (arith, text_less_total s t)

instance abbrev pub text_order : Less Text
text_order = record {
  less = text_less;
  less_irrefl = text_less_irrefl;
  less_trans = text_less_trans;
  less_total = text_less_total;
}

-- A text made from a `char *`: the bytes before the first zero.
abbrev pub c_string : Text → Text
c_string [] = []
c_string (c ∷ s) = if c == 0 then [] else c ∷ c_string s

pub c_string-zero : (t r : Text) → has_byte 0 t ≡ false → c_string (t ++ 0 ∷ r) ≡ t
c_string-zero [] r h = refl
c_string-zero (c ∷ t) r h = ground (arith, c_string-zero t r)

pub c_string-whole : (t : Text) → has_byte 0 t ≡ false → c_string t ≡ t
c_string-whole [] h = refl
c_string-whole (c ∷ t) h = ground (arith, c_string-whole t)
