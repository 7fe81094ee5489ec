-- ===== src/StdMap/Keys.antt =====
-- The order of `int` keys.
use shapeware.Base.{◌≡◌, true, false, arith}
use shapeware.Base.Int.{ℤ, int_less}
use shapeware.StdMap.{Less}

pub int_less_irrefl : (a : ℤ) → int_less a a ≡ false
int_less_irrefl a = ground arith

pub int_less_trans : (a b c : ℤ) → int_less a b ≡ true → int_less b c ≡ true → int_less a c ≡ true
int_less_trans a b c h k = ground arith

pub int_less_total : (a b : ℤ) → int_less a b ≡ false → int_less b a ≡ false → a ≡ b
int_less_total a b h k = ground arith

instance abbrev pub int_order : Less ℤ
int_order = record {
  less = int_less;
  less_irrefl = int_less_irrefl;
  less_trans = int_less_trans;
  less_total = int_less_total;
}
