-- ===== src/Domain/Price.antt =====
-- internal/domain/order.go: Price, a number of pips (1 pip = 0.0001), and its arithmetic.
use upcow.Base.{Bool}
use upcow.Base.Int.{ℤ, pos, add64, sub64, lt_int, le_int}
use upcow.Base.Float.{Float}

pub record Price : Type 0 where
  pub pips : ℤ

unfoldable pub add : Price → Price → Price
add p other = record { pips = add64 p.pips other.pips }

unfoldable pub subtract : Price → Price → Price
subtract p other = record { pips = sub64 p.pips other.pips }

unfoldable pub greater_than : Price → Price → Bool
greater_than p other = lt_int other.pips p.pips

unfoldable pub less_than : Price → Price → Bool
less_than p other = lt_int p.pips other.pips

unfoldable pub greater_than_or_equal : Price → Price → Bool
greater_than_or_equal p other = le_int other.pips p.pips

unfoldable pub less_than_or_equal : Price → Price → Bool
less_than_or_equal p other = le_int p.pips other.pips

module _ ⦃fl : Float⦄ where
  open fl use {F, div_f, mul_f, of_int, round_int}

  unfoldable pub to_decimal : Price → F
  to_decimal p = div_f (of_int p.pips) (of_int (pos 10000))

  unfoldable pub to_cents : Price → ℤ
  to_cents p = round_int (div_f (of_int p.pips) (of_int (pos 100)))

  unfoldable pub price_from_decimal : F → Price
  price_from_decimal decimal = record { pips = round_int (mul_f decimal (of_int (pos 10000))) }
