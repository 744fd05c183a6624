-- ===== src/InFlight.antt =====
-- internal/execution/inflight.go: the deduper of requests in flight. A method locks its shard, so it
-- runs alone on it.
pub mod Exclusion
pub mod Expiry
pub mod Tests
use Prim.Native.Nat.{bit_xor}
use upcow.Base.{
  ℕ, zero, suc, String, Bool, true, false, ◌+◌, ◌*◌, ◌/◌, ◌%◌, ◌^◌, List, [], ◌∷◌, ◌++◌, Option,
  none, some, if◌then◌else◌, leb, ltb, length,
}
use upcow.Base.Text.{codes}
use upcow.Base.Int.{ℤ, pos, le_int}
use upcow.Base.Dict.{Dict, lookup, insert, delete}
use upcow.Domain.Market.{is_empty}

-- A shard: key and time of expiry, in nanoseconds.
abbrev pub Shard : Type 0
Shard = Dict ℕ

pub record InFlightDeduper : Type 0 where
  pub ttl : ℕ
  pub shards : List Shard

unfoldable pub empty_shards : ℕ → List Shard
empty_shards zero = []
empty_shards (suc n) = [] ∷ empty_shards n

-- `ttl` in nanoseconds.
abbrev or_default : ℤ → ℕ → ℕ
or_default (pos zero) d = d
or_default (pos (suc n)) d = suc n
or_default (ℤ.negsuc n) d = d

unfoldable pub new_in_flight_deduper : ℤ → ℤ → InFlightDeduper
unfolding empty_shards
new_in_flight_deduper ttl shard_count = record {
  ttl = or_default ttl 2_000_000_000;
  shards = empty_shards (or_default shard_count 64);
}

-- The bytes of a code point in UTF-8.
utf8 : ℕ → List ℕ
utf8 c =
    if ltb c 0x80
    then c ∷ []
    else if ltb c 0x800
    then (0xc0 + c / 0x40) ∷ (0x80 + c % 0x40) ∷ []
    else if ltb c 0x10000
    then (0xe0 + c / 0x1000) ∷ (0x80 + c / 0x40 % 0x40) ∷ (0x80 + c % 0x40) ∷ []
    else (0xf0 + c / 0x40000)
      ∷ (0x80 + c / 0x1000 % 0x40)
      ∷ (0x80 + c / 0x40 % 0x40)
      ∷ (0x80 + c % 0x40)
      ∷ []

bytes : List ℕ → List ℕ
bytes [] = []
bytes (c ∷ cs) = utf8 c ++ bytes cs

-- FNV-1a in 32 bits.
fnv32a : ℕ → List ℕ → ℕ
fnv32a h [] = h
fnv32a h (b ∷ bs) = fnv32a (bit_xor h b * 16777619 % 2 ^ 32) bs

unfoldable pub shard_index : InFlightDeduper → String → ℕ
unfolding utf8 bytes fnv32a
shard_index d key = fnv32a 2166136261 (bytes (codes key)) % length d.shards

unfoldable pub get_shard : List Shard → ℕ → Shard
get_shard [] i = []
get_shard (s ∷ ss) zero = s
get_shard (s ∷ ss) (suc i) = get_shard ss i

unfoldable pub set_shard : List Shard → ℕ → Shard → List Shard
set_shard [] i v = []
set_shard (s ∷ ss) zero v = v ∷ ss
set_shard (s ∷ ss) (suc i) v = s ∷ set_shard ss i v

-- The sweep: what does not expire after `now` goes.
unfoldable pub sweep : ℕ → Shard → Shard
sweep now [] = []
sweep now ((k, exp) ∷ m) = let rest = sweep now m in if ltb now exp then (k, exp) ∷ rest else rest

abbrev is_live : ℕ → Option ℕ → Bool
is_live now none = false
is_live now (some exp) = ltb now exp

unfoldable pub acquire_in : ℕ → ℕ → String → Shard → Shard × Bool
unfolding sweep
acquire_in now ttl key m =
    if is_live now (lookup key swept) then (swept, false) else (insert key (now + ttl) swept, true)
  where
    swept : Shard
    swept = sweep now m

-- `false` is ErrDuplicateInFlight; `none` is the nil deduper.
unfoldable pub try_acquire : ℕ → Option InFlightDeduper → String → Option InFlightDeduper × Bool
try_acquire now none key = (none, true)
try_acquire now (some d) key =
    if is_empty key
    then (some d, true)
    else (let (m, done) = acquire_in now d.ttl key (get_shard d.shards (shard_index d key)) in
        (some (record d { shards = set_shard d.shards (shard_index d key) m }), done))

unfoldable pub release : Option InFlightDeduper → String → Option InFlightDeduper
release none key = none
release (some d) key =
    if is_empty key
    then some d
    else some (record d {
      shards =
          set_shard d.shards (shard_index d key)
            (delete key (get_shard d.shards (shard_index d key)));
    })

unfoldable pub clear_all : List Shard → List Shard
clear_all [] = []
clear_all (s ∷ ss) = [] ∷ clear_all ss

unfoldable pub clear : Option InFlightDeduper → Option InFlightDeduper
unfolding clear_all
clear none = none
clear (some d) = some (record d { shards = clear_all d.shards })
