-- ===== src/MarketMath.antt =====
-- pkg/marketmath/effective.go: effective prices of a YES/NO book and complete-set arbitrage, in pips.
-- The pair (value, error) of the source is a Checked; the closures are functions.
pub mod Bounds
pub mod Arbitrage
pub mod Tests
use upcow.Base.{ℕ, Bool, true, false, ◌&&◌, ◌||◌, Option, none, some, if◌then◌else◌}
use upcow.Base.Int.{ℤ, pos, negsuc, add64, sub64, lt_int, le_int, eq_int}

pub record TopOfBook : Type 0 where
  pub yes_bid_pips : ℤ
  pub yes_ask_pips : ℤ
  pub no_bid_pips : ℤ
  pub no_ask_pips : ℤ

pub data QuoteName : Type 0 where
  yes_bid yes_ask no_bid no_ask : QuoteName

pub data BookError : Type 0 where
  book_is_empty : BookError
  out_of_range : QuoteName → ℤ → BookError

pub data Checked {ℓ} (A : Type ℓ) : Type ℓ where
  ok : A → Checked A
  err : BookError → Checked A

-- The closure `check`.
unfoldable pub check_quote : QuoteName → ℤ → Option BookError
check_quote name v =
    if eq_int v (pos 0)
    then none
    else if lt_int v (pos 0) || lt_int (pos 10000) v
    then some (out_of_range name v)
    else none

-- The first error of two checks.
abbrev first_error : Option BookError → Option BookError → Option BookError
first_error none e = e
first_error (some x) e = some x

unfoldable pub validate : TopOfBook → Option BookError
unfolding check_quote
validate t =
    if le_int t.yes_bid_pips (pos 0)
      && le_int t.yes_ask_pips (pos 0)
      && le_int t.no_bid_pips (pos 0)
      && le_int t.no_ask_pips (pos 0)
    then some book_is_empty
    else first_error (check_quote yes_bid t.yes_bid_pips) (
        first_error (check_quote yes_ask t.yes_ask_pips)
          (first_error (check_quote no_bid t.no_bid_pips) (check_quote no_ask t.no_ask_pips)))

pub record EffectivePrices : Type 0 where
  pub effective_buy_yes_pips : ℤ
  pub effective_buy_no_pips : ℤ
  pub effective_sell_yes_pips : ℤ
  pub effective_sell_no_pips : ℤ

-- The closures `minPos`, `maxPos` and `mirror`.
unfoldable pub min_pos : ℤ → ℤ → ℤ
min_pos a b =
    if le_int a (pos 0) then b else if le_int b (pos 0) then a else if lt_int a b then a else b

unfoldable pub max_pos : ℤ → ℤ → ℤ
max_pos a b =
    if le_int a (pos 0) then b else if le_int b (pos 0) then a else if lt_int b a then a else b

unfoldable pub mirror : ℤ → ℤ
mirror pips = if le_int pips (pos 0) then pos 0 else sub64 (pos 10000) pips

unfoldable pub effective_prices : TopOfBook → EffectivePrices
unfolding min_pos max_pos mirror
effective_prices t = record {
  effective_buy_yes_pips = min_pos t.yes_ask_pips (mirror t.no_bid_pips);
  effective_buy_no_pips = min_pos t.no_ask_pips (mirror t.yes_bid_pips);
  effective_sell_yes_pips = max_pos t.yes_bid_pips (mirror t.no_ask_pips);
  effective_sell_no_pips = max_pos t.no_bid_pips (mirror t.yes_ask_pips);
}

abbrev unless_error {ℓ} : {A : Type ℓ} → Option BookError → A → Checked A
unless_error none a = ok a
unless_error (some e) a = err e

unfoldable pub get_effective_prices : TopOfBook → Checked EffectivePrices
get_effective_prices t = unless_error (validate t) (effective_prices t)

pub data ArbitrageType : Type 0 where
  long short : ArbitrageType

pub record ArbitrageOpportunity : Type 0 where
  pub type : ArbitrageType
  pub profit_pips : ℤ
  pub long_cost_pips : ℤ
  pub short_revenue_pips : ℤ
  pub buy_yes_pips : ℤ
  pub buy_no_pips : ℤ
  pub sell_yes_pips : ℤ
  pub sell_no_pips : ℤ

unfoldable pub long_cost : EffectivePrices → ℤ
long_cost e = add64 e.effective_buy_yes_pips e.effective_buy_no_pips

unfoldable pub short_revenue : EffectivePrices → ℤ
short_revenue e = add64 e.effective_sell_yes_pips e.effective_sell_no_pips

unfoldable pub opportunity : ArbitrageType → ℤ → EffectivePrices → ArbitrageOpportunity
opportunity type profit e = record {
  type = type;
  profit_pips = profit;
  long_cost_pips = long_cost e;
  short_revenue_pips = short_revenue e;
  buy_yes_pips = e.effective_buy_yes_pips;
  buy_no_pips = e.effective_buy_no_pips;
  sell_yes_pips = e.effective_sell_yes_pips;
  sell_no_pips = e.effective_sell_no_pips;
}

unfoldable pub short_opportunity : EffectivePrices → Option ArbitrageOpportunity
short_opportunity e =
    if lt_int (pos 0) e.effective_sell_yes_pips
      && lt_int (pos 0) e.effective_sell_no_pips
      && lt_int (pos 0) profit
    then some (opportunity short profit e)
    else none
  where
    profit : ℤ
    profit = sub64 (short_revenue e) (pos 10000)

unfoldable pub find_opportunity : EffectivePrices → Option ArbitrageOpportunity
find_opportunity e =
    if lt_int (pos 0) e.effective_buy_yes_pips
      && lt_int (pos 0) e.effective_buy_no_pips
      && lt_int (pos 0) profit
    then some (opportunity long profit e)
    else short_opportunity e
  where
    profit : ℤ
    profit = sub64 (pos 10000) (long_cost e)

abbrev map_checked {ℓ κ} : {A : Type ℓ} {B : Type κ} → (A → B) → Checked A → Checked B
map_checked f (ok a) = ok (f a)
map_checked f (err e) = err e

unfoldable pub check_arbitrage : TopOfBook → Checked (Option ArbitrageOpportunity)
check_arbitrage t = map_checked find_opportunity (get_effective_prices t)
