-- ===== src/Base/Float.antt =====
-- Go's `float64` as an interface. Its values and its arithmetic are the processor's (IEEE 754),
-- so they are a parameter of the whole model.
use mathlib.Core.Path.{◌≡◌}
use mathlib.Core.Bool.{Bool, true, false}
use upcow.Base.Int.{ℤ}

pub record Float : Type 1 where
  pub F : Type 0
  pub zero_f : F
  pub add_f : F → F → F
  pub sub_f : F → F → F
  pub mul_f : F → F → F
  pub div_f : F → F → F
  -- The tests `<` and `<=`. Both fail on a NaN.
  pub lt_f : F → F → Bool
  pub le_f : F → F → Bool
  -- The conversion `float64(n)`, and `int(math.Round(x))`, which is the nearest integer.
  pub of_int : ℤ → F
  pub round_int : F → ℤ
  -- The conversion `int(x)`, which drops the fraction.
  pub trunc_int : F → ℤ

-- What IEEE 754 says of the two tests, NaN included.
pub record IsOrdered (fl : Float) : Type 0 where
  pub lt_irrefl : (a : fl.F) → fl.lt_f a a ≡ false
  pub lt_le : (a b : fl.F) → fl.lt_f a b ≡ true → fl.le_f a b ≡ true
  pub le_not_lt : (a b : fl.F) → fl.le_f a b ≡ true → fl.lt_f b a ≡ false
  pub le_refl_left : (a b : fl.F) → fl.le_f a b ≡ true → fl.le_f a a ≡ true
  pub le_refl_right : (a b : fl.F) → fl.le_f a b ≡ true → fl.le_f b b ≡ true
  pub le_trans : (a b c : fl.F) → fl.le_f a b ≡ true → fl.le_f b c ≡ true → fl.le_f a c ≡ true
  pub lt_le_trans : (a b c : fl.F) → fl.lt_f a b ≡ true → fl.le_f b c ≡ true → fl.lt_f a c ≡ true
