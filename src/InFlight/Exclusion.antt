-- ===== src/InFlight/Exclusion.antt =====
-- internal/execution/inflight.go: which requests the deduper keeps out.
use mathlib.Core.Path.{subst}
use native.Mathlib.Nat.{mod-lt}
use upcow.Base.{
  ℕ, zero, suc, String, true, false, ◌+◌, ◌<◌, List, [], ◌∷◌, Option, none, some, ◌≡◌, ◌≢◌, ◌⊎◌,
  inl, inr, sym, ap, ◌∙◌, refl, arith, length, if_neg, Bool-cases, if◌then◌else◌, ◌==◌,
}
use upcow.Base.Text.{codes}
use upcow.Base.Dict.{lookup, delete, lookup-insert, lookup-delete}
use upcow.Domain.Market.{is_empty}
use upcow.InFlight.{
  Shard, InFlightDeduper, shard_index, get_shard, set_shard, fnv32a, bytes, sweep, acquire_in,
  try_acquire, release, clear,
}

get-set :
    (ss : List Shard) (i j : ℕ) (m : Shard)
    → i < length ss
    → get_shard (set_shard ss i m) j ≡ (if i == j then m else get_shard ss j)
unfolding get_shard set_shard
get-set [] i j m h = ground arith
get-set (s ∷ ss) zero zero m h = ground arith
get-set (s ∷ ss) zero (suc j) m h = ground arith
get-set (s ∷ ss) (suc i) zero m h = ground arith
get-set (s ∷ ss) (suc i) (suc j) m h = ground (arith, get-set ss i j m (omega arith))

pub length-set : (ss : List Shard) (i : ℕ) (m : Shard) → length (set_shard ss i m) ≡ length ss
unfolding set_shard
length-set [] i m = refl
length-set (s ∷ ss) zero m = refl
length-set (s ∷ ss) (suc i) m = ground (arith, length-set ss i m)

shard_index-set :
    (d : InFlightDeduper) (i : ℕ) (m : Shard) (key : String)
    → shard_index (record d { shards = set_shard d.shards i m }) key ≡ shard_index d key
unfolding shard_index
shard_index-set d i m key = rw (length-set d.shards i m)

shard_index-lt :
    (d : InFlightDeduper) (key : String) → 0 < length d.shards → shard_index d key < length d.shards
unfolding shard_index
shard_index-lt d key h = mod-lt (fnv32a 2166136261 (bytes (codes key))) h

-- A live entry stays through the sweep.
lookup-sweep :
    (now exp : ℕ) (k : String) (m : Shard)
    → lookup k m ≡ some exp
    → now < exp
    → lookup k (sweep now m) ≡ some exp
unfolding lookup sweep
lookup-sweep now exp k [] h i = absurd (cc)
lookup-sweep now exp k ((j, e) ∷ m) h i = ground (arith, lookup-sweep now exp k m)

-- The shard of a key.
abbrev pub shard_of : InFlightDeduper → String → Shard
shard_of d key = get_shard d.shards (shard_index d key)

-- The deduper with a new shard for `other`.
abbrev pub with_shard : InFlightDeduper → String → Shard → InFlightDeduper
with_shard d other m = record d { shards = set_shard d.shards (shard_index d other) m }

eq-cases :
    (i j : ℕ) (m n : Shard)
    → ((i ≡ j) × ((if i == j then m else n) ≡ m)) ⊎ ((if i == j then m else n) ≡ n)
eq-cases i j m n = ground arith

-- What holds of a key's shard holds of it once the shard of another key is replaced, if it holds of what
-- replaces it where this is the same shard.
pub shard-with_shard :
    (P : Shard → Type 0) (d : InFlightDeduper) (other key : String) (m : Shard)
    → 0 < length d.shards
    → P (shard_of d key)
    → (shard_of d other ≡ shard_of d key → P m)
    → P (shard_of (with_shard d other m) key)
shard-with_shard P d other key m h p f =
    let found : shard_of (with_shard d other m) key
        ≡ (if shard_index d other == shard_index d key then m else shard_of d key) =
      rw (shard_index-set d (shard_index d other) m key)
        (get-set d.shards (shard_index d other) (shard_index d key) m (shard_index-lt d other h)) in
    elim (eq-cases (shard_index d other) (shard_index d key) m (shard_of d key)) [
      | inl (same, e) ↦ subst P (sym (found ∙ e)) (f (ap (get_shard d.shards) same))
      | inr e ↦ subst P (sym (found ∙ e)) p
    ]

-- The request under the key is in flight until `exp`.
pub record IsInFlight (key : String) (exp : ℕ) (d : InFlightDeduper) : Type 0 where
  pub some_shard : 0 < length d.shards
  pub entry : lookup key (get_shard d.shards (shard_index d key)) ≡ some exp

-- A request for a held key is refused, and the key stays held.
refuse :
    (now exp : ℕ) (d : InFlightDeduper) (key : String)
    → is_empty key ≡ false
    → IsInFlight key exp d
    → now < exp
    → (acquire_in now d.ttl key (shard_of d key)).1 ≡ false
unfolding acquire_in
refuse now exp d key n h i = ground (arith, lookup-sweep now exp key (shard_of d key) h.entry i)

lookup-acquire :
    (now ttl exp : ℕ) (other key : String) (m : Shard)
    → now < exp
    → lookup key m ≡ some exp
    → lookup key (acquire_in now ttl other m).0 ≡ some exp
unfolding acquire_in
lookup-acquire now ttl exp other key m i h =
    ground
      (arith, lookup-sweep now exp key m h i, lookup-insert key other (now + ttl) (sweep now m))

-- One operation, each with the time at which it looks at the clock.
pub data Step : Type 0 where
  acquires : ℕ → String → Step
  releases : String → Step
  clears : Step

abbrev pub apply : Step → Option InFlightDeduper → Option InFlightDeduper
apply (acquires now key) d = (try_acquire now d key).0
apply (releases key) d = release d key
apply clears d = clear d

abbrev pub apply_all : List Step → Option InFlightDeduper → Option InFlightDeduper
apply_all [] d = d
apply_all (x ∷ xs) d = apply_all xs (apply x d)

-- No release of the key, no clear, and nothing after `exp`.
abbrev pub Spares : String → ℕ → Step → Type 0
Spares key exp (acquires now other) = now < exp
Spares key exp (releases other) = other ≢ key
Spares key exp clears = true ≡ false

abbrev pub SpareAll : String → ℕ → List Step → Type 0
SpareAll key exp [] = Unit
SpareAll key exp (x ∷ xs) = Spares key exp x × SpareAll key exp xs

abbrev Holds : String → ℕ → Option InFlightDeduper → Type 0
Holds key exp none = true ≡ false
Holds key exp (some d) = IsInFlight key exp d

with_shard-IsInFlight :
    (d : InFlightDeduper) (other key : String) (exp : ℕ) (m : Shard)
    → IsInFlight key exp d
    → (lookup key (shard_of d other) ≡ some exp → lookup key m ≡ some exp)
    → IsInFlight key exp (with_shard d other m)
with_shard-IsInFlight d other key exp m h f = record {
  some_shard = rw (length-set d.shards (shard_index d other) m) h.some_shard;
  entry =
      shard-with_shard (λ s. lookup key s ≡ some exp) d other key m h.some_shard h.entry
        (λ same. f (rw (same) h.entry));
}

-- An operation on a key replaces the key's shard, or does nothing.
pub apply-cases :
    (now : ℕ) (d : InFlightDeduper) (other : String)
    → ((try_acquire now (some d) other).0 ≡ some d)
      ⊎ ((try_acquire now (some d) other).0
          ≡ some (with_shard d other (acquire_in now d.ttl other (shard_of d other)).0))
unfolding try_acquire
apply-cases now d other = elim (Bool-cases (is_empty other)) [
  | inl named ↦ inl (ground (arith, named))
  | inr named ↦ inr (ground (arith, named))
]

pub release-cases :
    (d : InFlightDeduper) (other : String)
    → (release (some d) other ≡ some d)
      ⊎ (release (some d) other ≡ some (with_shard d other (delete other (shard_of d other))))
unfolding release
release-cases d other = elim (Bool-cases (is_empty other)) [
  | inl named ↦ inl (ground (arith, named))
  | inr named ↦ inr (ground (arith, named))
]

apply-Holds :
    (key : String) (exp : ℕ) (x : Step) (d : Option InFlightDeduper)
    → Spares key exp x
    → Holds key exp d
    → Holds key exp (apply x d)
apply-Holds key exp x none s h = absurd (cc)
apply-Holds key exp (acquires now other) (some d) s h = elim (apply-cases now d other) [
  | inl e ↦ subst (Holds key exp) (sym e) h
  | inr e ↦ subst (Holds key exp) (sym e) (
      with_shard-IsInFlight d other key exp (acquire_in now d.ttl other (shard_of d other)).0 h
        (lookup-acquire now d.ttl exp other key (shard_of d other) s))
]
apply-Holds key exp (releases other) (some d) s h = elim (release-cases d other) [
  | inl e ↦ subst (Holds key exp) (sym e) h
  | inr e ↦ subst (Holds key exp) (sym e) (
      with_shard-IsInFlight d other key exp (delete other (shard_of d other)) h
        (λ e. rw (lookup-delete key other (shard_of d other), if_neg _ s) e))
]
apply-Holds key exp clears (some d) s h = absurd (cc)

apply_all-Holds :
    (key : String) (exp : ℕ) (xs : List Step) (d : Option InFlightDeduper)
    → SpareAll key exp xs
    → Holds key exp d
    → Holds key exp (apply_all xs d)
apply_all-Holds key exp [] d s h = h
apply_all-Holds key exp (x ∷ xs) d s h =
    apply_all-Holds key exp xs (apply x d) s.1 (apply-Holds key exp x d s.0 h)

Holds-refuse :
    (now exp : ℕ) (key : String) (d : Option InFlightDeduper)
    → is_empty key ≡ false
    → now < exp
    → Holds key exp d
    → (try_acquire now d key).1 ≡ false
unfolding try_acquire
Holds-refuse now exp key none n i h = absurd (cc)
Holds-refuse now exp key (some d) n i h = ground (arith, refuse now exp d key n h i)

lookup-acquired :
    (now ttl : ℕ) (key : String) (m : Shard)
    → (acquire_in now ttl key m).1 ≡ true
    → lookup key (acquire_in now ttl key m).0 ≡ some (now + ttl)
unfolding acquire_in
lookup-acquired now ttl key m done = ground (arith, lookup-insert key key (now + ttl) (sweep now m))

set-get : (ss : List Shard) (i : ℕ) (m : Shard) → i < length ss → get_shard (set_shard ss i m) i ≡ m
set-get ss i m h = ground (arith, get-set ss i i m h)

pub shard-same :
    (d : InFlightDeduper) (key : String) (m : Shard)
    → 0 < length d.shards
    → shard_of (with_shard d key m) key ≡ m
shard-same d key m h =
    rw (shard_index-set d (shard_index d key) m key)
      (set-get d.shards (shard_index d key) m (shard_index-lt d key h))

acquire-Holds :
    (now : ℕ) (d : InFlightDeduper) (key : String)
    → is_empty key ≡ false
    → 0 < length d.shards
    → (try_acquire now (some d) key).1 ≡ true
    → Holds key (now + d.ttl) (try_acquire now (some d) key).0
unfolding try_acquire
acquire-Holds now d key n h done =
    let m : Shard = (acquire_in now d.ttl key (shard_of d key)).0 in
    rw n record {
      some_shard = rw (length-set d.shards (shard_index d key) m) h;
      entry =
          ap (lookup key) (shard-same d key m h)
          ∙ lookup-acquired now d.ttl key (shard_of d key) (rw n at done);
    }

-- A request that got in at `now` keeps every request under its key out that comes before `now +
-- ttl`, whatever was done in between with the clock before that time, but for a release of the key
-- or a clear. The key is not empty, and there is a shard.
pub try_acquire_excludes :
    (now later : ℕ) (d : InFlightDeduper) (key : String) (between : List Step)
    → is_empty key ≡ false
    → 0 < length d.shards
    → (try_acquire now (some d) key).1 ≡ true
    → SpareAll key (now + d.ttl) between
    → later < now + d.ttl
    → (try_acquire later (apply_all between (try_acquire now (some d) key).0) key).1 ≡ false
try_acquire_excludes now later d key between n h done s l =
    Holds-refuse later (now + d.ttl) key (apply_all between (try_acquire now (some d) key).0) n l (
      apply_all-Holds key (now + d.ttl) between (try_acquire now (some d) key).0 s
        (acquire-Holds now d key n h done))
