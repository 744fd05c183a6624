-- ===== src/Quality/Tests.antt =====
-- internal/services/market_quality.go at concrete books.
use upcow.Base.{Option, true, false, none, some, ◌≡◌, refl, ◌||◌}
use upcow.Base.Int.{pos, sub64, add64}
use upcow.Base.Text.{String_discrete}
use upcow.Domain.Market.{Market}
use upcow.MarketMath.{
  mirror, get_effective_prices, validate, check_quote, effective_prices, check_arbitrage,
  find_opportunity, min_pos, max_pos, opportunity, short_opportunity, long_cost, short_revenue,
}
use upcow.BestBook.{BestBookSnapshot}
use upcow.Quality.{
  MarketQuality, default_options, get_market_quality, tradable, flag_if, flag, choose_ws,
  choose_rest, with_rest, assess, assessed, assess_book, yes_spread, no_spread, yes_gap, no_gap,
  mirror_gap, price_arbitrage, with_effective, normalized, ws_top, top_of, is_complete, is_rest,
  is_recent, start_quality,
}
use upcow.Quality.Gate.{tradable_lem, crossed_twice}

abbrev market : Market
market = record {
  slug = "btc-updown-15m-1767225600";
  yes_asset_id = "yes";
  no_asset_id = "no";
  condition_id = "c";
  question = "";
  timestamp = pos 1767225600;
}

-- YES is bid at 45 cents and asked at 44.
abbrev crossed : BestBookSnapshot
crossed = record {
  yes_bid_pips = 4500;
  yes_ask_pips = 4400;
  no_bid_pips = 5500;
  no_ask_pips = 5700;
  yes_bid_size_scaled = 0;
  yes_ask_size_scaled = 0;
  no_bid_size_scaled = 0;
  no_ask_size_scaled = 0;
  updated_at = some 1_000_000_000;
}

abbrev or_blank : Option MarketQuality → MarketQuality
or_blank none = start_quality 0 ""
or_blank (some q) = q

abbrev quality : MarketQuality
quality =
    or_blank (get_market_quality 1_500_000_000 (some market) default_options (some crossed) none)

unfoldable test_code : Unit {0}
unfolding get_market_quality normalized ws_top top_of choose_ws choose_rest with_rest assessed
    assess assess_book yes_spread no_spread yes_gap no_gap mirror_gap mirror price_arbitrage
    with_effective flag_if flag tradable get_effective_prices validate check_quote effective_prices
    min_pos max_pos check_arbitrage find_opportunity opportunity short_opportunity long_cost
    short_revenue sub64 add64 String_discrete
test_code = tt

-- A crossed book of one token costs 40 points, and 60 are enough.
crossed_is_tradable : tradable (some quality) ≡ true
unfolding test_code
crossed_is_tradable = refl

tradable_lem_example :
    (is_complete quality.top ≡ true)
    × (is_rest quality.source
          || is_recent 1_500_000_000
              (normalized default_options).max_book_age
              quality.book_updated_at
        ≡ true)
    × (crossed_twice quality.top ≡ false)
unfolding test_code
tradable_lem_example =
    tradable_lem 1_500_000_000 (some market) default_options (some crossed) none quality refl
      crossed_is_tradable
