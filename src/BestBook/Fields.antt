-- ===== src/BestBook/Fields.antt =====
-- internal/marketstate/atomic_bestbook.go: the packed words as a snapshot of eight fields.
use upcow.Base.{ℕ, ◌^◌, ◌*◌, ◌<◌, none, some, ◌≡◌, refl, arith, if◌then◌else◌, ltb, ◌==◌}
use upcow.Domain.Market.{TokenType, no_token, up, down}
use upcow.BestBook.{
  AtomicBestBook, BestBookSnapshot, price_field, high_half, low_half, load, pack_prices, pack_sizes,
  or_old, next_prices, next_sizes, update_token,
}

-- What the four fields of packed prices are.
pub pack_prices-fields :
    (a b c d : ℕ)
    → a < 2 ^ 16
    → b < 2 ^ 16
    → c < 2 ^ 16
    → d < 2 ^ 16
    → (price_field (pack_prices a b c d) 3 ≡ a)
      × (price_field (pack_prices a b c d) 2 ≡ b)
      × (price_field (pack_prices a b c d) 1 ≡ c)
      × (price_field (pack_prices a b c d) 0 ≡ d)
unfolding pack_prices
pack_prices-fields a b c d ha hb hc hd = omega arith

pub pack_sizes-halves :
    (y n : ℕ)
    → y < 2 ^ 32
    → n < 2 ^ 32
    → (high_half (pack_sizes y n) ≡ y) × (low_half (pack_sizes y n) ≡ n)
unfolding pack_sizes
pack_sizes-halves y n h k = omega arith

-- The update of a snapshot, field by field.
abbrev pub merged : ℕ → BestBookSnapshot → TokenType → ℕ → ℕ → ℕ → ℕ → BestBookSnapshot
merged now s up bid ask bid_size ask_size = record s {
  yes_bid_pips = or_old bid s.yes_bid_pips;
  yes_ask_pips = or_old ask s.yes_ask_pips;
  yes_bid_size_scaled = or_old bid_size s.yes_bid_size_scaled;
  yes_ask_size_scaled = or_old ask_size s.yes_ask_size_scaled;
  updated_at = if ltb 0 now then some (now * 1_000_000) else none;
}
merged now s down bid ask bid_size ask_size = record s {
  no_bid_pips = or_old bid s.no_bid_pips;
  no_ask_pips = or_old ask s.no_ask_pips;
  no_bid_size_scaled = or_old bid_size s.no_bid_size_scaled;
  no_ask_size_scaled = or_old ask_size s.no_ask_size_scaled;
  updated_at = if ltb 0 now then some (now * 1_000_000) else none;
}
merged now s no_token bid ask bid_size ask_size = s

-- What one round of the loop over the prices stores, field by field.
pub record HasPrices (word a b c d : ℕ) : Type 0 where
  pub yes_bid : price_field word 3 ≡ a
  pub yes_ask : price_field word 2 ≡ b
  pub no_bid : price_field word 1 ≡ c
  pub no_ask : price_field word 0 ≡ d

pub pack_prices-HasPrices :
    (a b c d : ℕ)
    → a < 2 ^ 16
    → b < 2 ^ 16
    → c < 2 ^ 16
    → d < 2 ^ 16
    → HasPrices (pack_prices a b c d) a b c d
pack_prices-HasPrices a b c d ha hb hc hd =
    let f = pack_prices-fields a b c d ha hb hc hd in
    record { yes_bid = f.0; yes_ask = f.1; no_bid = f.2; no_ask = f.3 }

pub or_old-lt : (m new old : ℕ) → new < m → old < m → or_old new old < m
or_old-lt m new old h k = ground arith

pub price_field-lt : (w i : ℕ) → price_field w i < 2 ^ 16
price_field-lt w i = omega arith

sizes-up :
    (size cur : ℕ)
    → size < 2 ^ 32
    → (high_half (if size == 0 then cur else next_sizes up size cur) ≡ or_old size (high_half cur))
      × (low_half (if size == 0 then cur else next_sizes up size cur) ≡ low_half cur)
unfolding next_sizes
sizes-up size cur h = ground (arith, pack_sizes-halves size (low_half cur))

sizes-down :
    (size cur : ℕ)
    → size < 2 ^ 32
    → (high_half (if size == 0 then cur else next_sizes down size cur) ≡ high_half cur)
      × (low_half (if size == 0 then cur else next_sizes down size cur)
          ≡ or_old size (low_half cur))
unfolding next_sizes
sizes-down size cur h = ground (arith, pack_sizes-halves (high_half cur) size)

-- An update of the packed words is the update of the snapshot that they stand for: the token's
-- quotes and sizes that are not 0 replace the old ones, all other fields stay, and the time is
-- `now`. An unknown token changes nothing. Quotes are less than 2 ^ 16, sizes less than 2 ^ 32.
pub load-update_token :
    (now : ℕ) (book : AtomicBestBook) (token : TokenType) (bid ask bid_size ask_size : ℕ)
    → bid < 2 ^ 16
    → ask < 2 ^ 16
    → bid_size < 2 ^ 32
    → ask_size < 2 ^ 32
    → load (update_token now book token bid ask bid_size ask_size)
      ≡ merged now (load book) token bid ask bid_size ask_size
unfolding load update_token next_prices
load-update_token now book no_token bid ask bs as_size hb ha hs ht = refl
load-update_token now book up bid ask bs sa hb ha hs ht =
    let w : ℕ = book.prices_packed in
    ground (
      arith,
      pack_prices-fields (or_old bid (price_field w 3)) (or_old ask (price_field w 2))
          (price_field w 1) (price_field w 0)
          (or_old-lt (2 ^ 16) bid (price_field w 3) hb (price_field-lt w 3))
          (or_old-lt (2 ^ 16) ask (price_field w 2) ha (price_field-lt w 2)) (price_field-lt w 1)
          (price_field-lt w 0),
      sizes-up bs book.bid_sizes_packed hs,
      sizes-up sa book.ask_sizes_packed ht,
    )
load-update_token now book down bid ask bs sa hb ha hs ht =
    let w : ℕ = book.prices_packed in
    ground (
      arith,
      pack_prices-fields (price_field w 3) (price_field w 2) (or_old bid (price_field w 1))
          (or_old ask (price_field w 0)) (price_field-lt w 3) (price_field-lt w 2)
          (or_old-lt (2 ^ 16) bid (price_field w 1) hb (price_field-lt w 1))
          (or_old-lt (2 ^ 16) ask (price_field w 0) ha (price_field-lt w 0)),
      sizes-down bs book.bid_sizes_packed hs,
      sizes-down sa book.ask_sizes_packed ht,
    )
