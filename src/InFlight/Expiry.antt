-- ===== src/InFlight/Expiry.antt =====
-- internal/execution/inflight.go: which requests the deduper lets in again.
use mathlib.Core.Path.{subst}
use upcow.Base.{
  ℕ, zero, suc, String, true, false, ◌+◌, ◌<◌, ◌≤◌, List, [], ◌∷◌, Option, none, some, ◌≡◌, ◌≢◌,
  ◌⊎◌, inl, inr, refl, sym, ap, ◌∙◌, arith, ltb, length, Bool-cases,
}
use upcow.Base.Text.{String_discrete}
use upcow.Base.Dict.{lookup, delete, insert, AllIn, AllIn-delete, AllIn-insert, AllIn-map}
use upcow.Domain.Market.{is_empty}
use upcow.InFlight.{
  Shard, InFlightDeduper, get_shard, shard_index, sweep, acquire_in, try_acquire, release,
  clear_all, clear,
}
use upcow.InFlight.Exclusion.{
  Step, acquires, releases, clears, apply, apply_all, shard_of, with_shard, shard-with_shard,
  shard-same, length-set, apply-cases, release-cases,
}

-- Under the key there is nothing that expires after `exp`.
abbrev NotAfter : String → ℕ → Shard → Type 0
NotAfter key exp = AllIn (λ j e. j ≡ key → e ≤ exp)

sweep-AllIn : (P : String → ℕ → Type 0) (now : ℕ) (m : Shard) → AllIn P m → AllIn P (sweep now m)
unfolding sweep
sweep-AllIn P now [] a = tt
sweep-AllIn P now ((j, e) ∷ m) a = elim (Bool-cases (ltb now e)) [
  | inl live ↦ rw live (a.0, sweep-AllIn P now m a.1)
  | inr gone ↦ rw gone (sweep-AllIn P now m a.1)
]

AllIn-any : (P : String → ℕ → Type 0) (m : Shard) → ((j : String) (e : ℕ) → P j e) → AllIn P m
AllIn-any P [] f = tt
AllIn-any P ((j, e) ∷ m) f = (f j e, AllIn-any P m f)

acquire-cases :
    (now ttl : ℕ) (other : String) (m : Shard)
    → ((acquire_in now ttl other m).0 ≡ sweep now m)
      ⊎ ((acquire_in now ttl other m).0 ≡ insert other (now + ttl) (sweep now m))
unfolding acquire_in
acquire-cases now ttl other m = ground arith

insert-AllIn :
    (P : String → ℕ → Type 0) (key : String) (exp : ℕ) (m : Shard)
    → P key exp
    → AllIn P m
    → AllIn P (insert key exp m)
insert-AllIn P key exp m p a =
    AllIn-insert P key exp m p (AllIn-map P (λ j e. j ≢ key → P j e) (λ j e q ne. q) m a)

acquire-other :
    (now ttl exp : ℕ) (other key : String) (m : Shard)
    → other ≢ key
    → NotAfter key exp m
    → NotAfter key exp (acquire_in now ttl other m).0
acquire-other now ttl exp other key m ne a =
    let swept : NotAfter key exp (sweep now m) = sweep-AllIn (λ j e. j ≡ key → e ≤ exp) now m a in
    elim (acquire-cases now ttl other m) [
      | inl e ↦ subst (NotAfter key exp) (sym e) swept
      | inr e ↦ subst (NotAfter key exp) (sym e) (
          insert-AllIn (λ j e. j ≡ key → e ≤ exp) other (now + ttl) (sweep now m)
            (λ same. absurd (ne same)) swept)
    ]

pub record IsLapsed (key : String) (exp : ℕ) (d : InFlightDeduper) : Type 0 where
  pub some_shard : 0 < length d.shards
  pub lapsed : NotAfter key exp (shard_of d key)

abbrev pub Lapses : String → ℕ → Option InFlightDeduper → Type 0
Lapses key exp none = true ≡ false
Lapses key exp (some d) = IsLapsed key exp d

-- No request for the key.
abbrev pub Leaves : String → Step → Type 0
Leaves key (acquires now other) = other ≢ key
Leaves key (releases other) = Unit
Leaves key clears = Unit

abbrev pub LeaveAll : String → List Step → Type 0
LeaveAll key [] = Unit
LeaveAll key (x ∷ xs) = Leaves key x × LeaveAll key xs

with_shard-IsLapsed :
    (d : InFlightDeduper) (other key : String) (exp : ℕ) (m : Shard)
    → IsLapsed key exp d
    → (NotAfter key exp (shard_of d other) → NotAfter key exp m)
    → IsLapsed key exp (with_shard d other m)
with_shard-IsLapsed d other key exp m h f = record {
  some_shard = rw (length-set d.shards (shard_index d other) m) h.some_shard;
  lapsed =
      shard-with_shard (NotAfter key exp) d other key m h.some_shard h.lapsed
        (λ same. f (subst (NotAfter key exp) (sym same) h.lapsed));
}

delete-NotAfter :
    (key : String) (exp : ℕ) (other : String) (m : Shard)
    → NotAfter key exp m
    → NotAfter key exp (delete other m)
delete-NotAfter key exp other m a =
    AllIn-delete (λ j e. j ≡ key → e ≤ exp) other m
      (AllIn-map (λ j e. j ≡ key → e ≤ exp) (λ j e. j ≢ other → j ≡ key → e ≤ exp) (λ j e q ne. q) m
        a)

length-clear : (ss : List Shard) → length (clear_all ss) ≡ length ss
unfolding clear_all
length-clear [] = refl
length-clear (s ∷ ss) = ap suc (length-clear ss)

get-clear : (ss : List Shard) (i : ℕ) → get_shard (clear_all ss) i ≡ []
unfolding clear_all get_shard
get-clear [] i = refl
get-clear (s ∷ ss) zero = refl
get-clear (s ∷ ss) (suc i) = get-clear ss i

clear-IsLapsed :
    (d : InFlightDeduper) (key : String) (exp : ℕ)
    → 0 < length d.shards
    → IsLapsed key exp (record d { shards = clear_all d.shards })
unfolding clear_all get_shard
clear-IsLapsed d key exp h = record {
  some_shard = rw (length-clear d.shards) h;
  lapsed = rw (get-clear d.shards (shard_index (record d { shards = clear_all d.shards }) key)) tt;
}

apply-Lapses :
    (key : String) (exp : ℕ) (x : Step) (d : Option InFlightDeduper)
    → Leaves key x
    → Lapses key exp d
    → Lapses key exp (apply x d)
unfolding clear
apply-Lapses key exp x none s h = absurd (cc)
apply-Lapses key exp (acquires now other) (some d) s h = elim (apply-cases now d other) [
  | inl e ↦ subst (Lapses key exp) (sym e) h
  | inr e ↦ subst (Lapses key exp) (sym e) (
      with_shard-IsLapsed d other key exp (acquire_in now d.ttl other (shard_of d other)).0 h
        (acquire-other now d.ttl exp other key (shard_of d other) s))
]
apply-Lapses key exp (releases other) (some d) s h = elim (release-cases d other) [
  | inl e ↦ subst (Lapses key exp) (sym e) h
  | inr e ↦ subst (Lapses key exp) (sym e) (
      with_shard-IsLapsed d other key exp (delete other (shard_of d other)) h
        (λ a. delete-NotAfter key exp other (shard_of d other) a))
]
apply-Lapses key exp clears (some d) s h = clear-IsLapsed d key exp h.some_shard

apply_all-Lapses :
    (key : String) (exp : ℕ) (xs : List Step) (d : Option InFlightDeduper)
    → LeaveAll key xs
    → Lapses key exp d
    → Lapses key exp (apply_all xs d)
apply_all-Lapses key exp [] d s h = h
apply_all-Lapses key exp (x ∷ xs) d s h =
    apply_all-Lapses key exp xs (apply x d) s.1 (apply-Lapses key exp x d s.0 h)

-- What does not expire after now is swept away.
sweep-none :
    (now exp : ℕ) (key : String) (m : Shard)
    → NotAfter key exp m
    → exp ≤ now
    → lookup key (sweep now m) ≡ none
unfolding lookup sweep
sweep-none now exp key [] a h = refl
sweep-none now exp key ((j, e) ∷ m) a h =
    let rest = sweep-none now exp key m a.1 h in
    elim (String_discrete j key) [
      | yes same ↦ let old : e ≤ exp = a.0 same in ground (arith)
      | no other ↦ ground (arith)
    ]

Lapses-acquire :
    (now exp : ℕ) (key : String) (d : Option InFlightDeduper)
    → exp ≤ now
    → Lapses key exp d
    → (try_acquire now d key).1 ≡ true
unfolding try_acquire acquire_in
Lapses-acquire now exp key none h l = refl
Lapses-acquire now exp key (some d) h l =
    ground (arith, sweep-none now exp key (shard_of d key) l.lapsed h)

release-Lapses :
    (d : InFlightDeduper) (key : String)
    → is_empty key ≡ false
    → 0 < length d.shards
    → Lapses key 0 (release (some d) key)
unfolding release
release-Lapses d key n h =
    let m : Shard = delete key (shard_of d key) in
    rw n record {
      some_shard = rw (length-set d.shards (shard_index d key) m) h;
      lapsed = subst (NotAfter key 0) (sym (shard-same d key m h)) (
          AllIn-delete (λ j e. j ≡ key → e ≤ 0) key (shard_of d key)
            (AllIn-any (λ j e. j ≢ key → j ≡ key → e ≤ 0) (shard_of d key)
              (λ j e ne same. absurd (ne same))));
    }

acquired :
    (now ttl : ℕ) (key : String) (m : Shard)
    → (acquire_in now ttl key m).1 ≡ true
    → (acquire_in now ttl key m).0 ≡ insert key (now + ttl) (sweep now m)
unfolding acquire_in
acquired now ttl key m done = ground arith

acquire-Lapses :
    (now : ℕ) (d : InFlightDeduper) (key : String)
    → is_empty key ≡ false
    → 0 < length d.shards
    → (try_acquire now (some d) key).1 ≡ true
    → Lapses key (now + d.ttl) (try_acquire now (some d) key).0
unfolding try_acquire
acquire-Lapses now d key n h done =
    let m : Shard = (acquire_in now d.ttl key (shard_of d key)).0 in
    let exp : ℕ = now + d.ttl in
    rw n record {
      some_shard = rw (length-set d.shards (shard_index d key) m) h;
      lapsed =
          subst (NotAfter key exp)
            (sym (shard-same d key m h ∙ acquired now d.ttl key (shard_of d key) (rw n at done)))
            (AllIn-insert (λ j e. j ≡ key → e ≤ exp) key exp (sweep now (shard_of d key))
              (λ same. omega arith)
              (AllIn-any (λ j e. j ≢ key → j ≡ key → e ≤ exp) (sweep now (shard_of d key))
                (λ j e ne same. absurd (ne same))));
    }

-- After a release of a key and anything done since but a request for it, a request for it gets in
-- at any time. The key is not empty, and there is a shard.
pub try_acquire_after_release :
    (now : ℕ) (d : InFlightDeduper) (key : String) (between : List Step)
    → is_empty key ≡ false
    → 0 < length d.shards
    → LeaveAll key between
    → (try_acquire now (apply_all between (release (some d) key)) key).1 ≡ true
try_acquire_after_release now d key between n h s =
    Lapses-acquire now 0 key (apply_all between (release (some d) key)) (omega arith)
      (apply_all-Lapses key 0 between (release (some d) key) s (release-Lapses d key n h))

-- After a request that got in at `now` and anything done since but a request for its key, a request
-- for it gets in from `now + ttl` on. The key is not empty, and there is a shard.
pub try_acquire_after_expiry :
    (now later : ℕ) (d : InFlightDeduper) (key : String) (between : List Step)
    → is_empty key ≡ false
    → 0 < length d.shards
    → (try_acquire now (some d) key).1 ≡ true
    → LeaveAll key between
    → now + d.ttl ≤ later
    → (try_acquire later (apply_all between (try_acquire now (some d) key).0) key).1 ≡ true
try_acquire_after_expiry now later d key between n h done s l =
    Lapses-acquire later (now + d.ttl) key (apply_all between (try_acquire now (some d) key).0) l (
      apply_all-Lapses key (now + d.ttl) between (try_acquire now (some d) key).0 s
        (acquire-Lapses now d key n h done))
