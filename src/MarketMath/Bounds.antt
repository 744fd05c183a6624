-- ===== src/MarketMath/Bounds.antt =====
-- pkg/marketmath/effective.go: what Validate accepts, and the effective prices of such a book.
use upcow.Base.{ℕ, ◌+◌, ◌-◌, ◌==◌, ◌≤◌, ◌<◌, none, ◌≡◌, arith, ◌⊎◌, if◌then◌else◌, min, max}
use upcow.Base.Int.{ℤ, pos, sub64, ◌-ℤ◌, pos_part}
use upcow.MarketMath.{
  TopOfBook, EffectivePrices, QuoteName, validate, check_quote, min_pos, max_pos, mirror,
  effective_prices,
}

-- A price between 0 and 1 dollar.
abbrev pub InRange : ℤ → Type 0
InRange v = (v ≡ pos (pos_part v)) × (pos_part v ≤ 10000)

check_quote-InRange : (name : QuoteName) (v : ℤ) → check_quote name v ≡ none → InRange v
unfolding check_quote
check_quote-InRange name v h = ground arith

pub record IsInRange (t : TopOfBook) : Type 0 where
  pub yes_bid : InRange t.yes_bid_pips
  pub yes_ask : InRange t.yes_ask_pips
  pub no_bid : InRange t.no_bid_pips
  pub no_ask : InRange t.no_ask_pips

-- A book that passes has every quote in range.
pub validate-IsInRange : (t : TopOfBook) → validate t ≡ none → IsInRange t
unfolding validate
validate-IsInRange t h = ground (
  arith,
  check_quote-InRange QuoteName.yes_bid t.yes_bid_pips,
  check_quote-InRange QuoteName.yes_ask t.yes_ask_pips,
  check_quote-InRange QuoteName.no_bid t.no_bid_pips,
  check_quote-InRange QuoteName.no_ask t.no_ask_pips,
)

-- A quote seen from the other token: none stays none.
abbrev pub opposite : ℕ → ℕ
opposite n = if n == 0 then 0 else 10000 - n

pub mirror-pos : (n : ℕ) → n ≤ 10000 → mirror (pos n) ≡ pos (opposite n)
unfolding mirror sub64 ◌-ℤ◌
mirror-pos n h = ground arith

-- The smaller of two quotes, of which 0 is none.
abbrev pub lower : ℕ → ℕ → ℕ
lower a b = if a == 0 then b else if b == 0 then a else min a b

abbrev pub higher : ℕ → ℕ → ℕ
higher a b = if a == 0 then b else if b == 0 then a else max a b

pub min_pos-pos : (a b : ℕ) → min_pos (pos a) (pos b) ≡ pos (lower a b)
unfolding min_pos
min_pos-pos a b = ground arith

pub max_pos-pos : (a b : ℕ) → max_pos (pos a) (pos b) ≡ pos (higher a b)
unfolding max_pos
max_pos-pos a b = ground arith

abbrev pub book : ℕ → ℕ → ℕ → ℕ → TopOfBook
book yb ya nb na = record {
  yes_bid_pips = pos yb;
  yes_ask_pips = pos ya;
  no_bid_pips = pos nb;
  no_ask_pips = pos na;
}

abbrev pub prices : ℕ → ℕ → ℕ → ℕ → EffectivePrices
prices yb ya nb na = record {
  effective_buy_yes_pips = pos (lower ya (opposite nb));
  effective_buy_no_pips = pos (lower na (opposite yb));
  effective_sell_yes_pips = pos (higher yb (opposite na));
  effective_sell_no_pips = pos (higher nb (opposite ya));
}

pub effective_prices-book :
    (yb ya nb na : ℕ)
    → yb ≤ 10000
    → ya ≤ 10000
    → nb ≤ 10000
    → na ≤ 10000
    → effective_prices (book yb ya nb na) ≡ prices yb ya nb na
unfolding effective_prices
effective_prices-book yb ya nb na h i j k =
    rw (mirror-pos yb h, mirror-pos ya i, mirror-pos nb j, mirror-pos na k)
      (cc (
        min_pos-pos ya (opposite nb),
        min_pos-pos na (opposite yb),
        max_pos-pos yb (opposite na),
        max_pos-pos nb (opposite ya),
      ))

-- Buying one token and selling the other meet at one dollar.
pub buy-sell-opposite :
    (ask bid : ℕ)
    → ask < 10000
    → bid < 10000
    → ((lower ask (opposite bid) ≡ 0) × (higher bid (opposite ask) ≡ 0))
      ⊎ ((lower ask (opposite bid) + higher bid (opposite ask) ≡ 10000)
          × (0 < lower ask (opposite bid)))
buy-sell-opposite ask bid h k = ground arith
