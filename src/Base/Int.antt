-- ===== src/Base/Int.antt =====
-- The C++ type `int`, without its range: `negsuc n` is -(n + 1).
use Prim.Native.Nat.{ℕ, ◌-◌, ◌^◌}
use mathlib.Core.Bool.{Bool, true, false}
use shapeware.Base.Tests.{ltb}

pub data ℤ : Type 0 where
  pos : ℕ → ℤ
  negsuc : ℕ → ℤ

-- The conversion from `int` to the 64-bit `size_t` that a mixed comparison makes.
abbrev pub size_of_int : ℤ → ℕ
size_of_int (pos n) = n
size_of_int (negsuc n) = 2 ^ 64 - 1 - n

-- `<` on `int`
abbrev pub int_less : ℤ → ℤ → Bool
int_less (pos a) (pos b) = ltb a b
int_less (pos a) (negsuc b) = false
int_less (negsuc a) (pos b) = true
int_less (negsuc a) (negsuc b) = ltb b a
