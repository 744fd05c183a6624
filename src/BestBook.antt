-- ===== src/BestBook.antt =====
-- internal/marketstate/atomic_bestbook.go: the best quotes of both tokens, packed into three words. A
-- `uint16`, `uint32` or `uint64` is a number below that bound. The fields that a word packs do not overlap,
-- so `|` is a sum. Without another writer each compare-and-swap loop ends in its first round; `Writers` has
-- the loop with another writer.
pub mod Fields
pub mod Writers
pub mod Tests
use upcow.Base.{
  ℕ, Bool, true, false, ◌+◌, ◌-◌, ◌*◌, ◌/◌, ◌%◌, ◌^◌, Option, none, some, if◌then◌else◌, ltb, leb,
  ◌==◌,
}
use upcow.Domain.Market.{TokenType, no_token, up, down}

pub record AtomicBestBook : Type 0 where
  pub prices_packed : ℕ
  pub bid_sizes_packed : ℕ
  pub ask_sizes_packed : ℕ
  pub updated_at_unix_ms : ℕ

-- `updated_at` is a time in nanoseconds, `none` for the zero time.
pub record BestBookSnapshot : Type 0 where
  pub yes_bid_pips : ℕ
  pub yes_ask_pips : ℕ
  pub no_bid_pips : ℕ
  pub no_ask_pips : ℕ
  pub yes_bid_size_scaled : ℕ
  pub yes_ask_size_scaled : ℕ
  pub no_bid_size_scaled : ℕ
  pub no_ask_size_scaled : ℕ
  pub updated_at : Option ℕ

unfoldable pub reset : AtomicBestBook → AtomicBestBook
reset b = record {
  prices_packed = 0;
  bid_sizes_packed = 0;
  ask_sizes_packed = 0;
  updated_at_unix_ms = 0;
}

-- `(w >> 16 * i) & 0xFFFF`.
abbrev pub price_field : ℕ → ℕ → ℕ
price_field w i = w / 2 ^ (16 * i) % 2 ^ 16

-- The halves of a word of sizes.
abbrev pub high_half : ℕ → ℕ
high_half w = w / 2 ^ 32 % 2 ^ 32

abbrev pub low_half : ℕ → ℕ
low_half w = w % 2 ^ 32

unfoldable pub updated_at : AtomicBestBook → Option ℕ
updated_at b = if ltb 0 b.updated_at_unix_ms then some (b.updated_at_unix_ms * 1_000_000) else none

unfoldable pub load : AtomicBestBook → BestBookSnapshot
unfolding updated_at
load b = record {
  yes_bid_pips = price_field b.prices_packed 3;
  yes_ask_pips = price_field b.prices_packed 2;
  no_bid_pips = price_field b.prices_packed 1;
  no_ask_pips = price_field b.prices_packed 0;
  yes_bid_size_scaled = high_half b.bid_sizes_packed;
  yes_ask_size_scaled = high_half b.ask_sizes_packed;
  no_bid_size_scaled = low_half b.bid_sizes_packed;
  no_ask_size_scaled = low_half b.ask_sizes_packed;
  updated_at = updated_at b;
}

-- `none` is the nil receiver; the clock and the age are in nanoseconds.
abbrev is_recent : ℕ → ℕ → Option ℕ → Bool
is_recent now max_age none = false
is_recent now max_age (some t) = leb (now - t) max_age

unfoldable pub is_fresh : ℕ → Option AtomicBestBook → ℕ → Bool
unfolding updated_at
is_fresh now none max_age = false
is_fresh now (some b) max_age = is_recent now max_age (updated_at b)

unfoldable pub pack_prices : ℕ → ℕ → ℕ → ℕ → ℕ
pack_prices yes_bid yes_ask no_bid no_ask =
    yes_bid * 2 ^ 48 + yes_ask * 2 ^ 32 + no_bid * 2 ^ 16 + no_ask

unfoldable pub pack_sizes : ℕ → ℕ → ℕ
pack_sizes y n = y * 2 ^ 32 + n

-- 0 leaves a field as it is.
abbrev pub or_old : ℕ → ℕ → ℕ
or_old new old = if new == 0 then old else new

-- One round of the loop over the prices: the word to store, `none` for an unknown token.
unfoldable pub next_prices : TokenType → ℕ → ℕ → ℕ → Option ℕ
unfolding pack_prices
next_prices up bid ask cur = some (
    pack_prices (or_old bid (price_field cur 3)) (or_old ask (price_field cur 2))
      (price_field cur 1) (price_field cur 0))
next_prices down bid ask cur = some (
    pack_prices (price_field cur 3) (price_field cur 2) (or_old bid (price_field cur 1))
      (or_old ask (price_field cur 0)))
next_prices no_token bid ask cur = none

-- One round of a loop over sizes.
unfoldable pub next_sizes : TokenType → ℕ → ℕ → ℕ
unfolding pack_sizes
next_sizes up size cur = pack_sizes size (low_half cur)
next_sizes down size cur = pack_sizes (high_half cur) size
next_sizes no_token size cur = pack_sizes (high_half cur) (low_half cur)

abbrev with_sizes : TokenType → ℕ → ℕ → ℕ
with_sizes token size cur = if size == 0 then cur else next_sizes token size cur

abbrev finish_update : ℕ → TokenType → ℕ → ℕ → AtomicBestBook → Option ℕ → AtomicBestBook
finish_update now token bid_size ask_size b none = b
finish_update now token bid_size ask_size b (some prices) = record {
  prices_packed = prices;
  bid_sizes_packed = with_sizes token bid_size b.bid_sizes_packed;
  ask_sizes_packed = with_sizes token ask_size b.ask_sizes_packed;
  updated_at_unix_ms = now;
}

-- `now` is the clock's milliseconds.
unfoldable pub update_token : ℕ → AtomicBestBook → TokenType → ℕ → ℕ → ℕ → ℕ → AtomicBestBook
unfolding next_prices next_sizes
update_token now b token bid_pips ask_pips bid_size ask_size =
    finish_update now token bid_size ask_size b
      (next_prices token bid_pips ask_pips b.prices_packed)
