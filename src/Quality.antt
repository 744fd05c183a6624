-- ===== src/Quality.antt =====
-- internal/services/market_quality.go: how good a market's quotes are, from the best book of the stream or from
-- the exchange's order book. The score starts at 100, only falls, and is cut off at 0, so `-` on ℕ is exact. One
-- reading of the clock serves for `now` and `time.Since`. Times are in nanoseconds.
pub mod Gate
pub mod Tests
use upcow.Base.{
  ℕ, String, Bool, true, false, not, ◌&&◌, ◌||◌, ◌+◌, ◌-◌, List, [], ◌∷◌, ◌++◌, Option, none, some,
  is_some, if◌then◌else◌, ltb, leb,
}
use upcow.Base.Int.{ℤ, pos, negsuc, sub64, lt_int, le_int}
use upcow.Base.Float.{Float}
use upcow.Domain.Market.{Market, is_empty}
use upcow.Domain.Price.{price_from_decimal}
use upcow.BestBook.{BestBookSnapshot}
use upcow.MarketMath.{
  TopOfBook, EffectivePrices, ArbitrageOpportunity, Checked, ok, err, mirror, get_effective_prices,
  check_arbitrage,
}

pub record MarketQualityOptions : Type 0 where
  pub max_book_age : ℤ
  pub max_spread_pips : ℤ
  pub prefer_ws : Bool
  pub fallback_to_rest : Bool
  pub allow_partial_ws : Bool

-- Sixty seconds, ten cents; the stream first and then the exchange.
unfoldable pub normalized : MarketQualityOptions → MarketQualityOptions
normalized o = record o {
  max_book_age = if lt_int (pos 0) o.max_book_age then o.max_book_age else pos 60_000_000_000;
  max_spread_pips = if lt_int (pos 0) o.max_spread_pips then o.max_spread_pips else pos 1000;
  prefer_ws = o.prefer_ws || not o.fallback_to_rest;
  fallback_to_rest = o.fallback_to_rest || not o.prefer_ws;
}

abbrev default_options : MarketQualityOptions
default_options = record {
  max_book_age = pos 0;
  max_spread_pips = pos 0;
  prefer_ws = true;
  fallback_to_rest = true;
  allow_partial_ws = true;
}

pub data Source : Type 0 where
  no_source ws_best_book ws_partial_book rest_order_book : Source

pub data Problem : Type 0 where
  ws_partial ws_stale rest_failed incomplete_top : Problem
  crossed_yes wide_spread_yes crossed_no wide_spread_no : Problem
  mirror_gap_buy_yes mirror_gap_buy_no effective_price_failed : Problem

pub record MarketQuality : Type 0 where
  pub market_slug : String
  pub observed_at : ℕ
  pub source : Source
  pub book_updated_at : Option ℕ
  pub age : ℕ
  pub top : TopOfBook
  pub effective : Option EffectivePrices
  pub yes_spread_pips : ℤ
  pub no_spread_pips : ℤ
  pub mirror_gap_buy_yes_pips : ℤ
  pub mirror_gap_buy_no_pips : ℤ
  pub complete : Bool
  pub fresh : Bool
  pub score : ℕ
  pub problems : List Problem
  pub arbitrage : Option ArbitrageOpportunity

-- `none` is the nil receiver.
unfoldable pub tradable : Option MarketQuality → Bool
tradable none = false
tradable (some mq) = mq.complete && mq.fresh && leb 60 mq.score

-- A problem and what it takes off the score.
unfoldable pub flag : Problem → ℕ → MarketQuality → MarketQuality
flag p n mq = record mq { problems = mq.problems ++ p ∷ []; score = mq.score - n }

unfoldable pub flag_if : Bool → Problem → ℕ → MarketQuality → MarketQuality
unfolding flag
flag_if b p n mq = if b then flag p n mq else mq

abbrev positive : ℤ → Bool
positive a = lt_int (pos 0) a

abbrev pub is_complete : TopOfBook → Bool
is_complete t =
    positive t.yes_bid_pips
    && positive t.yes_ask_pips
    && positive t.no_bid_pips
    && positive t.no_ask_pips

abbrev has_any : TopOfBook → Bool
has_any t =
    positive t.yes_bid_pips
    || positive t.yes_ask_pips
    || positive t.no_bid_pips
    || positive t.no_ask_pips

unfoldable pub top_of : BestBookSnapshot → TopOfBook
top_of s = record {
  yes_bid_pips = pos s.yes_bid_pips;
  yes_ask_pips = pos s.yes_ask_pips;
  no_bid_pips = pos s.no_bid_pips;
  no_ask_pips = pos s.no_ask_pips;
}

abbrev empty_top : TopOfBook
empty_top = record {
  yes_bid_pips = pos 0;
  yes_ask_pips = pos 0;
  no_bid_pips = pos 0;
  no_ask_pips = pos 0;
}

abbrev pub is_recent : ℕ → ℤ → Option ℕ → Bool
is_recent now max_age none = false
is_recent now max_age (some t) = le_int (pos (now - t)) max_age

-- What the stream offers: a snapshot of the current market's book, if that is the market asked for.
unfoldable pub ws_top : Option BestBookSnapshot → TopOfBook
unfolding top_of
ws_top none = empty_top
ws_top (some s) = top_of s

abbrev ws_updated_at : Option BestBookSnapshot → Option ℕ
ws_updated_at none = none
ws_updated_at (some s) = s.updated_at

-- The stream's book is taken if it has any quote and is complete or may be partial.
unfoldable pub choose_ws :
    MarketQualityOptions → TopOfBook → Option ℕ → MarketQuality → MarketQuality
unfolding flag_if
choose_ws o t updated mq =
    if o.prefer_ws && has_any t && (is_complete t || o.allow_partial_ws)
    then flag_if (not (is_recent mq.observed_at o.max_book_age updated)) ws_stale 25 (
        flag_if (not (is_complete t)) ws_partial 35 (record mq {
          top = t;
          book_updated_at = updated;
          source = if is_complete t then ws_best_book else ws_partial_book;
        }))
    else mq

abbrev is_chosen : Source → Bool
is_chosen no_source = false
is_chosen ws_best_book = true
is_chosen ws_partial_book = true
is_chosen rest_order_book = true

-- The exchange's answer, `none` where it failed. The result is `none` where nothing can be said.
unfoldable pub with_rest : Option TopOfBook → MarketQuality → Option MarketQuality
unfolding flag
with_rest (some t) mq =
    some (record mq { top = t; source = rest_order_book; book_updated_at = none })
with_rest none mq = if is_chosen mq.source then some (flag rest_failed 15 mq) else none

unfoldable pub choose_rest :
    MarketQualityOptions → Bool → Option TopOfBook → MarketQuality → Option MarketQuality
unfolding with_rest
choose_rest o ws_is_good rest mq =
    if o.fallback_to_rest && (not (is_chosen mq.source) || not ws_is_good)
    then with_rest rest mq
    else some mq

abbrev age_of : ℕ → Option ℕ → ℕ
age_of now none = 0
age_of now (some t) = now - t

abbrev is_rest : Source → Bool
is_rest rest_order_book = true
is_rest no_source = false
is_rest ws_best_book = false
is_rest ws_partial_book = false

-- Completeness and freshness. What comes from the exchange counts as fresh.
unfoldable pub assess_book : MarketQualityOptions → MarketQuality → MarketQuality
unfolding flag_if
assess_book o mq = flag_if (not (is_complete mq.top)) incomplete_top 50 (record mq {
  age = age_of mq.observed_at mq.book_updated_at;
  complete = is_complete mq.top;
  fresh = is_rest mq.source || is_recent mq.observed_at o.max_book_age mq.book_updated_at;
})

abbrev pub abs_int : ℤ → ℤ
abs_int (pos n) = pos n
abs_int (negsuc n) = pos (n + 1)

unfoldable pub yes_spread : MarketQualityOptions → MarketQuality → MarketQuality
unfolding flag_if
yes_spread o mq =
    if positive mq.top.yes_bid_pips && positive mq.top.yes_ask_pips
    then flag_if (lt_int o.max_spread_pips (abs_int spread)) wide_spread_yes 20 (
        flag_if (lt_int spread (pos 0)) crossed_yes 40
          (record mq { yes_spread_pips = abs_int spread }))
    else mq
  where
    spread : ℤ
    spread = sub64 mq.top.yes_ask_pips mq.top.yes_bid_pips

unfoldable pub no_spread : MarketQualityOptions → MarketQuality → MarketQuality
unfolding flag_if
no_spread o mq =
    if positive mq.top.no_bid_pips && positive mq.top.no_ask_pips
    then flag_if (lt_int o.max_spread_pips (abs_int spread)) wide_spread_no 20 (
        flag_if (lt_int spread (pos 0)) crossed_no 40
          (record mq { no_spread_pips = abs_int spread }))
    else mq
  where
    spread : ℤ
    spread = sub64 mq.top.no_ask_pips mq.top.no_bid_pips

unfoldable pub mirror_gap : ℤ → ℤ → ℤ
unfolding mirror
mirror_gap ask bid = abs_int (sub64 ask (mirror bid))

unfoldable pub yes_gap : MarketQuality → MarketQuality
unfolding flag_if mirror_gap
yes_gap mq =
    if positive mq.top.yes_ask_pips && positive mq.top.no_bid_pips
    then flag_if (lt_int (pos 2000) gap) mirror_gap_buy_yes 10
        (record mq { mirror_gap_buy_yes_pips = gap })
    else mq
  where
    gap : ℤ
    gap = mirror_gap mq.top.yes_ask_pips mq.top.no_bid_pips

unfoldable pub no_gap : MarketQuality → MarketQuality
unfolding flag_if mirror_gap
no_gap mq =
    if positive mq.top.no_ask_pips && positive mq.top.yes_bid_pips
    then flag_if (lt_int (pos 2000) gap) mirror_gap_buy_no 10
        (record mq { mirror_gap_buy_no_pips = gap })
    else mq
  where
    gap : ℤ
    gap = mirror_gap mq.top.no_ask_pips mq.top.yes_bid_pips

abbrev found : Checked (Option ArbitrageOpportunity) → Option ArbitrageOpportunity
found (ok o) = o
found (err e) = none

unfoldable pub with_effective : Checked EffectivePrices → MarketQuality → MarketQuality
unfolding flag
with_effective (ok e) mq = record mq {
  effective = some e;
  arbitrage = found (check_arbitrage mq.top);
}
with_effective (err e) mq = flag effective_price_failed 20 mq

unfoldable pub price_arbitrage : MarketQuality → MarketQuality
unfolding with_effective
price_arbitrage mq = with_effective (get_effective_prices mq.top) mq

-- Parts 3 to 5 of the source. The clamp is what `-` does.
unfoldable pub assess : MarketQualityOptions → MarketQuality → MarketQuality
unfolding assess_book yes_spread no_spread yes_gap no_gap price_arbitrage
assess o mq = price_arbitrage (no_gap (yes_gap (no_spread o (yes_spread o (assess_book o mq)))))

abbrev start_quality : ℕ → String → MarketQuality
start_quality now slug = record {
  market_slug = slug;
  observed_at = now;
  source = no_source;
  book_updated_at = none;
  age = 0;
  top = empty_top;
  effective = none;
  yes_spread_pips = pos 0;
  no_spread_pips = pos 0;
  mirror_gap_buy_yes_pips = pos 0;
  mirror_gap_buy_no_pips = pos 0;
  complete = false;
  fresh = false;
  score = 100;
  problems = [];
  arbitrage = none;
}

unfoldable pub assessed : MarketQualityOptions → Option MarketQuality → Option MarketQuality
unfolding assess
assessed o none = none
assessed o (some mq) = some (assess o mq)

abbrev is_market : Option Market → Bool
is_market none = false
is_market (some m) =
    not (is_empty m.slug) && not (is_empty m.yes_asset_id) && not (is_empty m.no_asset_id)

abbrev slug_of : Option Market → String
slug_of none = ""
slug_of (some m) = m.slug

-- `none` is an error.
unfoldable pub get_market_quality :
    ℕ
    → Option Market
    → MarketQualityOptions
    → Option BestBookSnapshot
    → Option TopOfBook
    → Option MarketQuality
unfolding normalized ws_top choose_ws choose_rest assessed
get_market_quality now market opt ws rest =
    let o = normalized opt in
    let book = if o.prefer_ws then ws else none in
    let t = ws_top book in
    let updated = ws_updated_at book in
    if is_market market
    then assessed o (
        choose_rest o (is_recent now o.max_book_age updated && is_complete t) rest
          (choose_ws o t updated (start_quality now (slug_of market))))
    else none

-- The first bid and ask of each book that the exchange sent, 0 where there is none.
module _ ⦃fl : Float⦄ where
  open fl use {F, zero_f, le_f}

  pub record RestBook : Type 0 where
    pub best_bid : F
    pub best_ask : F

  unfoldable pub parse_book : Option RestBook → Option (ℤ × ℤ)
  parse_book none = none
  parse_book (some b) =
      if le_f b.best_bid zero_f || le_f b.best_ask zero_f
      then none
      else some ((price_from_decimal b.best_bid).pips, (price_from_decimal b.best_ask).pips)

  abbrev both_books : Option (ℤ × ℤ) → Option (ℤ × ℤ) → Option TopOfBook
  both_books none n = none
  both_books (some y) none = none
  both_books (some y) (some n) =
      some (record { yes_bid_pips = y.0; yes_ask_pips = y.1; no_bid_pips = n.0; no_ask_pips = n.1 })

  -- `none` is an error, of the client too.
  unfoldable pub fetch_top_from_rest : Option RestBook → Option RestBook → Option TopOfBook
  unfolding parse_book
  fetch_top_from_rest yes_book no_book = both_books (parse_book yes_book) (parse_book no_book)
