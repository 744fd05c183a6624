-- ===== src/InFlight/Tests.antt =====
-- internal/execution/inflight.go at a concrete deduper.
use upcow.Base.{String, ◌%◌, ◌≢◌, true, false, ◌≡◌, refl, some, [], ◌∷◌, arith}
use upcow.Base.Text.{String_discrete, ne_of_test}
use upcow.Base.Int.{pos}
use upcow.Base.Dict.{lookup}
use upcow.InFlight.{
  InFlightDeduper, new_in_flight_deduper, empty_shards, shard_index, get_shard, set_shard, sweep,
  acquire_in, try_acquire, release,
}
use upcow.InFlight.Exclusion.{acquires, releases, apply_all, try_acquire_excludes}
use upcow.InFlight.Expiry.{try_acquire_after_release, try_acquire_after_expiry}

abbrev deduper : InFlightDeduper
deduper = new_in_flight_deduper (pos 100) (pos 4)

-- The hash is FNV-1a: 0xe40c292c for "a".
hash_of_a : shard_index (record deduper { shards = empty_shards 1000 }) "a" ≡ 3826002220 % 1000
unfolding new_in_flight_deduper shard_index empty_shards
hash_of_a = refl

b_ne_a : ◌≢◌ {A = String} "b" "a"
b_ne_a = ne_of_test "b" "a" refl

first : (try_acquire 50 (some deduper) "a").1 ≡ true
unfolding new_in_flight_deduper try_acquire acquire_in sweep shard_index get_shard empty_shards
    lookup String_discrete
first = refl

try_acquire_excludes_example :
    (try_acquire 149
      (apply_all (acquires 60 "b" ∷ releases "b" ∷ []) (try_acquire 50 (some deduper) "a").0)
      "a").1
    ≡ false
unfolding new_in_flight_deduper empty_shards String_discrete
try_acquire_excludes_example =
    try_acquire_excludes 50 149 deduper "a" (acquires 60 "b" ∷ releases "b" ∷ []) refl (omega arith)
      first (omega arith, (b_ne_a, tt)) (omega arith)

-- A request under "a" is in flight.
abbrev busy : InFlightDeduper
busy = record deduper {
  shards = set_shard deduper.shards (shard_index deduper "a") (("a", 150) ∷ []);
}

try_acquire_after_release_example :
    (try_acquire 51 (apply_all (acquires 50 "b" ∷ []) (release (some busy) "a")) "a").1 ≡ true
unfolding new_in_flight_deduper empty_shards String_discrete set_shard shard_index
try_acquire_after_release_example =
    try_acquire_after_release 51 busy "a" (acquires 50 "b" ∷ []) refl (omega arith) (b_ne_a, tt)

try_acquire_after_expiry_example :
    (try_acquire 150 (apply_all (acquires 60 "b" ∷ []) (try_acquire 50 (some deduper) "a").0) "a").1
    ≡ true
unfolding new_in_flight_deduper empty_shards String_discrete
try_acquire_after_expiry_example =
    try_acquire_after_expiry 50 150 deduper "a" (acquires 60 "b" ∷ []) refl (omega arith) first
      (b_ne_a, tt) (omega arith)
