-- ===== src/Base/Decimal.antt =====
-- Decimals with four places, which meet the interface of `float64`. The tests run on them.
use Prim.Native.Nat.{ℕ, ◌+◌, ◌*◌, ◌/◌}
use native.Mathlib.Omega.{arith}
use upcow.Base.Int.{ℤ, pos, pos_part, neg_part, sub_ℕ, ◌+ℤ◌, ◌-ℤ◌, lt_int, le_int}
use upcow.Base.Float.{Float, IsOrdered}

-- The number with this size, on the side of zero on which the product of `a` and `b` lies.
abbrev with_sign : ℤ → ℤ → ℕ → ℤ
with_sign (pos m) (pos n) size = pos size
with_sign (pos m) (ℤ.negsuc n) size = sub_ℕ 0 size
with_sign (ℤ.negsuc m) (pos n) size = sub_ℕ 0 size
with_sign (ℤ.negsuc m) (ℤ.negsuc n) size = pos size

abbrev size_of : ℤ → ℕ
size_of a = pos_part a + neg_part a

unfoldable pub mul_decimal : ℤ → ℤ → ℤ
mul_decimal a b = with_sign a b (size_of a * size_of b / 10000)

unfoldable pub div_decimal : ℤ → ℤ → ℤ
div_decimal a b = with_sign a b (size_of a * 10000 / size_of b)

unfoldable pub of_integer : ℤ → ℤ
of_integer n = with_sign n (pos 1) (size_of n * 10000)

unfoldable pub nearest : ℤ → ℤ
nearest a = with_sign a (pos 1) ((size_of a + 5000) / 10000)

unfoldable pub whole : ℤ → ℤ
whole a = with_sign a (pos 1) (size_of a / 10000)

instance abbrev pub decimal : Float
decimal = record {
  F = ℤ;
  zero_f = pos 0;
  add_f = ◌+ℤ◌;
  sub_f = ◌-ℤ◌;
  mul_f = mul_decimal;
  div_f = div_decimal;
  lt_f = lt_int;
  le_f = le_int;
  of_int = of_integer;
  round_int = nearest;
  trunc_int = whole;
}

pub decimal-IsOrdered : IsOrdered decimal
decimal-IsOrdered = record {
  lt_irrefl = λ a. ground arith;
  lt_le = λ a b h. ground arith;
  le_not_lt = λ a b h. ground arith;
  le_refl_left = λ a b h. ground arith;
  le_refl_right = λ a b h. ground arith;
  le_trans = λ a b c h k. ground arith;
  lt_le_trans = λ a b c h k. ground arith;
}
