-- ===== src/BestBook/Tests.antt =====
-- internal/marketstate/atomic_bestbook.go at concrete quotes.
use upcow.Base.{true, false, [], ◌∷◌, ◌≡◌, refl, some, arith}
use upcow.Domain.Market.{down}
use upcow.BestBook.{
  AtomicBestBook, load, pack_prices, pack_sizes, next_prices, next_sizes, update_token, updated_at,
  is_fresh,
}
use upcow.BestBook.Fields.{HasPrices, merged, load-update_token}
use upcow.BestBook.Writers.{run_race, turn, advance, at_start, run_race-HasPrices}

abbrev book : AtomicBestBook
book = record {
  prices_packed = pack_prices 4300 4400 5500 5700;
  bid_sizes_packed = pack_sizes 100000 20000;
  ask_sizes_packed = pack_sizes 30000 40000;
  updated_at_unix_ms = 7;
}

-- The ask of NO and its size change, the bid stays.
updates : load (update_token 9 book down 0 5600 0 70000) ≡ record (load book) {
  no_ask_pips = 5600;
  no_ask_size_scaled = 70000;
  updated_at = some 9_000_000;
}
unfolding load update_token next_prices next_sizes pack_prices pack_sizes updated_at
updates = refl

stale : is_fresh 3_007_000_001 (some book) 3_000_000_000 ≡ false
unfolding is_fresh updated_at
stale = refl

load-update_token_example :
    load (update_token 9 book down 0 5600 0 70000) ≡ merged 9 (load book) down 0 5600 0 70000
load-update_token_example =
    load-update_token 9 book down 0 5600 0 70000 (omega arith) (omega arith) (omega arith)
      (omega arith)

-- The first loads, the second loads and writes, the first fails, loads again and writes.
run_race-HasPrices_example :
    HasPrices
      (run_race
        (true ∷ false ∷ false ∷ true ∷ true ∷ true ∷ [])
        (at_start (pack_prices 4300 4400 5500 5700) 4200 0 0 5600)).word
      4200
      4400
      5500
      5600
unfolding pack_prices run_race turn advance next_prices
run_race-HasPrices_example =
    run_race-HasPrices (pack_prices 4300 4400 5500 5700) 4200 0 0 5600 (omega arith) (omega arith)
      (omega arith) (omega arith) (true ∷ false ∷ false ∷ true ∷ true ∷ true ∷ []) refl refl
