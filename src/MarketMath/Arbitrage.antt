-- ===== src/MarketMath/Arbitrage.antt =====
-- pkg/marketmath/effective.go: which opportunities CheckArbitrage finds.
use upcow.Base.{
  ℕ, ◌+◌, ◌-◌, ◌≤◌, ◌<◌, false, Option, none, some, ◌≡◌, arith, ◌⊎◌, inl, inr, if◌then◌else◌, ltb,
  ◌&&◌,
}
use upcow.Base.Int.{pos, add64, sub64, lt_int, ◌-ℤ◌, ◌+ℤ◌}
use upcow.MarketMath.{
  TopOfBook, EffectivePrices, ok, ArbitrageOpportunity, long, validate, effective_prices,
  get_effective_prices, long_cost, short_revenue, opportunity, short_opportunity, find_opportunity,
  check_arbitrage,
}
use upcow.MarketMath.Bounds.{
  IsInRange, validate-IsInRange, opposite, lower, higher, book, prices, effective_prices-book,
  buy-sell-opposite,
}

-- A way to buy the token whose ask is `ask` and whose other side's bid is `bid`, and its price.
pub data Route (ask bid : ℕ) : ℕ → Type 0 where
  direct : {p : ℕ} → 0 < ask → p ≡ ask → Route ask bid p
  mirrored : {p : ℕ} → 0 < bid → bid < 10000 → p ≡ 10000 - bid → Route ask bid p

lower-le : (ask bid p : ℕ) → bid ≤ 10000 → Route ask bid p → lower ask (opposite bid) ≤ p
lower-le ask bid p h (direct l e) = ground arith
lower-le ask bid p h (mirrored l u e) = ground arith

which :
    (ask bid : ℕ)
    → bid ≤ 10000
    → 0 < lower ask (opposite bid)
    → ((0 < ask) × (lower ask (opposite bid) ≡ ask))
      ⊎ ((0 < bid) × (bid < 10000) × (lower ask (opposite bid) ≡ 10000 - bid))
which ask bid h l = ground arith

lower-Route :
    (ask bid : ℕ)
    → bid ≤ 10000
    → 0 < lower ask (opposite bid)
    → Route ask bid (lower ask (opposite bid))
lower-Route ask bid h l = elim (which ask bid h l) [
  | inl (some_ask, e) ↦ direct some_ask e
  | inr (some_bid, below, e) ↦ mirrored some_bid below e
]

checked :
    (t : TopOfBook) (x : Option ArbitrageOpportunity)
    → check_arbitrage t ≡ ok x
    → (validate t ≡ none) × (find_opportunity (effective_prices t) ≡ x)
unfolding check_arbitrage get_effective_prices
checked t x e = ground arith

-- The range of the quotes of a book that passes, and the opportunity by its prices.
checked-book :
    (yb ya nb na : ℕ) (x : Option ArbitrageOpportunity)
    → check_arbitrage (book yb ya nb na) ≡ ok x
    → IsInRange (book yb ya nb na) × (find_opportunity (prices yb ya nb na) ≡ x)
checked-book yb ya nb na x e =
    let (v, found) = checked (book yb ya nb na) x e in
    let r : IsInRange (book yb ya nb na) = validate-IsInRange (book yb ya nb na) v in
    (
      r,
      rw (effective_prices-book yb ya nb na r.yes_bid.1 r.yes_ask.1 r.no_bid.1 r.no_ask.1) at found,
    )

abbrev numbers : ℕ → ℕ → ℕ → ℕ → EffectivePrices
numbers p q s u = record {
  effective_buy_yes_pips = pos p;
  effective_buy_no_pips = pos q;
  effective_sell_yes_pips = pos s;
  effective_sell_no_pips = pos u;
}

-- A buying price and the selling price of the other token.
abbrev Meets : ℕ → ℕ → Type 0
Meets buy sell = ((buy ≡ 0) × (sell ≡ 0)) ⊎ ((buy + sell ≡ 10000) × (0 < buy))

-- The opportunity that lies in two buying prices.
pub record IsLong (p q : ℕ) (o : ArbitrageOpportunity) : Type 0 where
  pub is_long : o.type ≡ long
  pub buys_yes : o.buy_yes_pips ≡ pos p
  pub buys_no : o.buy_no_pips ≡ pos q
  pub profit : o.profit_pips ≡ pos (10000 - (p + q))
  pub below : p + q < 10000
  pub some_yes : 0 < p
  pub some_no : 0 < q

add64-pos : (p q : ℕ) → p ≤ 10000 → q ≤ 10000 → add64 (pos p) (pos q) ≡ pos (p + q)
unfolding add64 ◌+ℤ◌
add64-pos p q h i = ground arith

gain : (n : ℕ) → n < 10000 → sub64 (pos 10000) (pos n) ≡ pos (10000 - n)
unfolding sub64 ◌-ℤ◌
gain n h = ground arith

gain-ltb : (n : ℕ) → n ≤ 20000 → lt_int (pos 0) (sub64 (pos 10000) (pos n)) ≡ ltb n 10000
unfolding sub64 ◌-ℤ◌
gain-ltb n h = ground arith

surplus-ltb : (n : ℕ) → n ≤ 20000 → lt_int (pos 0) (sub64 (pos n) (pos 10000)) ≡ ltb 10000 n
unfolding sub64 ◌-ℤ◌
surplus-ltb n h = ground arith

pos-ltb : (n : ℕ) → lt_int (pos 0) (pos n) ≡ ltb 0 n
pos-ltb n = ground arith

-- Where the buying prices leave no gain, nor do the selling prices.
no_short :
    (p q s u : ℕ)
    → s ≤ 10000
    → u ≤ 10000
    → Meets p u
    → Meets q s
    → ltb 0 p && ltb 0 q && ltb (p + q) 10000 ≡ false
    → short_opportunity (numbers p q s u) ≡ none
unfolding short_opportunity short_revenue
no_short p q s u j k m n h = ground (arith, add64-pos s u, surplus-ltb (s + u))

-- The test for a long opportunity, in numbers.
find_by_test :
    (p q s u : ℕ)
    → p ≤ 10000
    → q ≤ 10000
    → find_opportunity (numbers p q s u) ≡ (
        if ltb 0 p && ltb 0 q && ltb (p + q) 10000
        then some (opportunity long (sub64 (pos 10000) (pos (p + q))) (numbers p q s u))
        else short_opportunity (numbers p q s u))
unfolding find_opportunity long_cost
find_by_test p q s u h i =
    rw (add64-pos p q h i, gain-ltb (p + q) (omega arith), pos-ltb p, pos-ltb q)

find_numbers :
    (p q s u : ℕ) (o : ArbitrageOpportunity)
    → p ≤ 10000
    → q ≤ 10000
    → s ≤ 10000
    → u ≤ 10000
    → Meets p u
    → Meets q s
    → find_opportunity (numbers p q s u) ≡ some o
    → IsLong p q o
unfolding opportunity
find_numbers p q s u o h i j k m n e =
    ground (arith, find_by_test p q s u, no_short p q s u, gain (p + q))

find_none :
    (p q s u : ℕ)
    → p ≤ 10000
    → q ≤ 10000
    → find_opportunity (numbers p q s u) ≡ none
    → 0 < p
    → 0 < q
    → 10000 ≤ p + q
find_none p q s u h i e m n = ground (arith, find_by_test p q s u)

in_range : (ask bid : ℕ) → ask ≤ 10000 → lower ask (opposite bid) ≤ 10000
in_range ask bid h = ground arith

lower-pos : (ask bid p : ℕ) → Route ask bid p → 0 < lower ask (opposite bid)
lower-pos ask bid p (direct l e) = ground arith
lower-pos ask bid p (mirrored l u e) = ground arith

-- What a found opportunity is: two prices at which YES and NO can be bought, and what is left of a
-- dollar.
abbrev pub IsFound : ℕ → ℕ → ℕ → ℕ → ArbitrageOpportunity → Type 0
IsFound yb ya nb na o = (p : ℕ) × (q : ℕ) × Route ya nb p × Route na yb q × IsLong p q o

found_in_prices :
    (yb ya nb na : ℕ) (o : ArbitrageOpportunity)
    → yb < 10000
    → ya < 10000
    → nb < 10000
    → na < 10000
    → find_opportunity (prices yb ya nb na) ≡ some o
    → IsLong (lower ya (opposite nb)) (lower na (opposite yb)) o
found_in_prices yb ya nb na o h i j k e =
    find_numbers (lower ya (opposite nb)) (lower na (opposite yb)) (higher yb (opposite na))
      (higher nb (opposite ya)) o (ground arith) (ground arith) (ground arith) (ground arith)
      (buy-sell-opposite ya nb i j) (buy-sell-opposite na yb k h) e

-- In a book of quotes from 0 to 9999, an opportunity that is found is a long one: its two prices
-- are prices at which YES and NO can be bought, they come to less than a dollar, and its profit is
-- what is left of the dollar.
pub check_arbitrage_sound :
    (yb ya nb na : ℕ) (o : ArbitrageOpportunity)
    → yb < 10000
    → ya < 10000
    → nb < 10000
    → na < 10000
    → check_arbitrage (book yb ya nb na) ≡ ok (some o)
    → IsFound yb ya nb na o
check_arbitrage_sound yb ya nb na o h i j k e =
    let found = checked-book yb ya nb na (some o) e in
    let l : IsLong (lower ya (opposite nb)) (lower na (opposite yb)) o =
      found_in_prices yb ya nb na o h i j k found.1 in
    (
      lower ya (opposite nb),
      lower na (opposite yb),
      lower-Route ya nb (omega arith) l.some_yes,
      lower-Route na yb (omega arith) l.some_no,
      l,
    )

-- Where none is found in a book without a negative quote that passes validation, each way to buy
-- YES and each way to buy NO cost a dollar together or more.
pub check_arbitrage_complete :
    (yb ya nb na p q : ℕ)
    → check_arbitrage (book yb ya nb na) ≡ ok none
    → Route ya nb p
    → Route na yb q
    → 10000 ≤ p + q
check_arbitrage_complete yb ya nb na p q e r t =
    let found = checked-book yb ya nb na none e in
    let least : 10000 ≤ lower ya (opposite nb) + lower na (opposite yb) =
      find_none (lower ya (opposite nb)) (lower na (opposite yb)) (higher yb (opposite na))
        (higher nb (opposite ya)) (in_range ya nb found.0.yes_ask.1)
        (in_range na yb found.0.no_ask.1) found.1 (lower-pos ya nb p r) (lower-pos na yb q t) in
    omega (arith, least, lower-le ya nb p found.0.no_bid.1 r, lower-le na yb q found.0.yes_bid.1 t)
