-- ===== src/MarketMath/Tests.antt =====
-- pkg/marketmath/effective.go at concrete books.
use upcow.Base.{◌+◌, ◌≤◌, none, some, ◌≡◌, refl, arith}
use upcow.Base.Int.{pos, add64, sub64}
use upcow.MarketMath.{
  ok, err, ArbitrageOpportunity, long, validate, check_quote, effective_prices,
  get_effective_prices, long_cost, short_revenue, opportunity, short_opportunity, find_opportunity,
  check_arbitrage, book_is_empty, out_of_range, yes_ask,
}
use upcow.MarketMath.Bounds.{book}
use upcow.MarketMath.Arbitrage.{IsFound, Route, check_arbitrage_sound, check_arbitrage_complete}

-- YES for 44 cents, NO for 54.
abbrev gap : ArbitrageOpportunity
gap = record {
  type = long;
  profit_pips = pos 200;
  long_cost_pips = pos 9800;
  short_revenue_pips = pos 10200;
  buy_yes_pips = pos 4400;
  buy_no_pips = pos 5400;
  sell_yes_pips = pos 4600;
  sell_no_pips = pos 5600;
}

check_gap : check_arbitrage (book 4300 4400 5300 5400) ≡ ok (some gap)
unfolding check_arbitrage get_effective_prices validate check_quote effective_prices
    find_opportunity opportunity long_cost short_revenue add64 sub64
check_gap = refl

check_empty : check_arbitrage (book 0 0 0 0) ≡ err book_is_empty
unfolding check_arbitrage get_effective_prices validate
check_empty = refl

check_range : check_arbitrage (book 0 10001 0 0) ≡ err (out_of_range yes_ask (pos 10001))
unfolding check_arbitrage get_effective_prices validate check_quote
check_range = refl

check_none : check_arbitrage (book 4300 4500 5400 5600) ≡ ok none
unfolding check_arbitrage get_effective_prices validate check_quote effective_prices
    find_opportunity short_opportunity long_cost short_revenue add64 sub64
check_none = refl

check_arbitrage_sound_example : IsFound 4300 4400 5300 5400 gap
check_arbitrage_sound_example =
    check_arbitrage_sound 4300 4400 5300 5400 gap (omega arith) (omega arith) (omega arith)
      (omega arith) check_gap

check_arbitrage_complete_example : 10000 ≤ 4500 + 5600
check_arbitrage_complete_example =
    check_arbitrage_complete 4300 4500 5400 5600 4500 5600 check_none
      (Route.direct (omega arith) refl) (Route.direct (omega arith) refl)
