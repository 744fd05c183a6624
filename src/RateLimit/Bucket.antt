-- ===== src/RateLimit/Bucket.antt =====
-- pkg/ratelimit/ratelimit.go: what a token bucket grants.
use mathlib.Core.Path.{subst}
use native.Mathlib.Nat.{add-mul}
use upcow.Base.{
  ℕ, suc, Bool, true, false, ◌+◌, ◌-◌, ◌*◌, ◌/◌, ◌≤◌, ◌<◌, ◌^◌, List, [], ◌∷◌, ◌≡◌, refl, ◌∙◌,
  arith, if◌then◌else◌, ltb, Bool-cases, inl, inr, ◌⊎◌, zero,
}
use upcow.Base.Int.{pos, add64, sub64, mul64, ◌+ℤ◌, ◌-ℤ◌}
use upcow.RateLimit.{TokenBucket, min_int, refill, take_token, allow}

-- The whole seconds from one time to another.
abbrev pub seconds : ℕ → ℕ → ℕ
seconds since now = (now - since) / 1_000_000_000

-- A bucket of capacity `c` that gains `r` tokens in a second has `n`.
pub record IsBucket (c r n : ℕ) (tb : TokenBucket) : Type 0 where
  pub capacity_eq : tb.capacity ≡ pos c
  pub rate_eq : tb.refill_rate ≡ pos r
  pub tokens_eq : tb.tokens ≡ pos n
  pub within : n ≤ c

mul64-pos : (m n : ℕ) → m * n < 2 ^ 63 → mul64 (pos m) (pos n) ≡ pos (m * n)
unfolding mul64
mul64-pos m n h = ground arith

add64-pos : (m n : ℕ) → m + n < 2 ^ 63 → add64 (pos m) (pos n) ≡ pos (m + n)
unfolding add64 ◌+ℤ◌
add64-pos m n h = ground arith

-- What a refill adds, in numbers.
abbrev refilled : ℕ → ℕ → ℕ → ℕ
refilled c n more = if ltb c (n + more) then c else n + more

refill-tokens :
    (now c r n : ℕ) (tb : TokenBucket)
    → IsBucket c r n tb
    → c + seconds tb.last_refill now * r < 2 ^ 63
    → (refill now tb).tokens ≡ pos (refilled c n (seconds tb.last_refill now * r))
unfolding refill min_int
refill-tokens now c r n tb v h =
    let more : ℕ = seconds tb.last_refill now * r in
    ground (
      arith,
      v.capacity_eq,
      v.rate_eq,
      v.tokens_eq,
      mul64-pos (seconds tb.last_refill now) r (omega arith),
      add64-pos n (seconds tb.last_refill now * r) (omega (arith, v.within)),
    )

refill-last :
    (now c r n : ℕ) (tb : TokenBucket)
    → IsBucket c r n tb
    → seconds tb.last_refill now * r < 2 ^ 63
    → (refill now tb).last_refill
      ≡ (if ltb 0 (seconds tb.last_refill now * r) then now else tb.last_refill)
unfolding refill min_int
refill-last now c r n tb v h = ground (arith, v.rate_eq, mul64-pos (seconds tb.last_refill now) r h)

refill-same :
    (now : ℕ) (tb : TokenBucket)
    → ((refill now tb).capacity ≡ tb.capacity) × ((refill now tb).refill_rate ≡ tb.refill_rate)
unfolding refill
refill-same now tb = ground arith

pub seconds_add : (a b d : ℕ) → a ≤ b → b ≤ d → seconds a b + seconds b d ≤ seconds a d
seconds_add a b d h k = omega arith

mul_mono : (a b r : ℕ) → a ≤ b → a * r ≤ b * r
mul_mono a b r h = grind arith

mul_split : (a b d r : ℕ) → a + b ≤ d → a * r + b * r ≤ d * r
mul_split a b d r h = omega (arith, mul_mono (a + b) d r h, add-mul a b r)

-- What may still be granted up to the time `end`: the tokens there, and those to come.
abbrev budget : ℕ → ℕ → ℕ → ℕ → ℕ
budget n last end r = n + seconds last end * r

refilled-le :
    (last now end c r n : ℕ)
    → last ≤ now
    → now ≤ end
    → n ≤ c
    → budget
        (refilled c n (seconds last now * r))
        (if ltb 0 (seconds last now * r) then now else last)
        end
        r
      ≤ budget n last end r
refilled-le last now end c r n h k w =
    let split : seconds last now * r + seconds now end * r ≤ seconds last end * r =
      mul_split (seconds last now) (seconds now end) (seconds last end) r
        (seconds_add last now end h k) in
    elim (Bool-cases (ltb 0 (seconds last now * r))) [
      | inl more ↦
          rw more
            (shrinks n c (seconds last now * r) (seconds now end * r) (seconds last end * r) split)
      | inr none_yet ↦
          rw none_yet (stays n c (seconds last now * r) (seconds last end * r) none_yet w)
    ]
  where
    shrinks : (n c x y z : ℕ) → x + y ≤ z → refilled c n x + y ≤ n + z
    shrinks n c x y z h = ground arith

    stays : (n c x z : ℕ) → ltb 0 x ≡ false → n ≤ c → refilled c n x + z ≤ n + z
    stays n c x z h w = ground arith

take-lem :
    (c r n : ℕ) (tb : TokenBucket)
    → n < 2 ^ 63
    → IsBucket c r n tb
    → ((n ≡ 0) × ((take_token tb).1 ≡ false) × ((take_token tb).0 ≡ tb))
      ⊎ ((0 < n)
          × ((take_token tb).1 ≡ true)
          × IsBucket c r (n - 1) (take_token tb).0
          × ((take_token tb).0.last_refill ≡ tb.last_refill))
unfolding take_token sub64 ◌-ℤ◌
take-lem c r zero tb h v = inl (refl, ground (arith, v.tokens_eq), ground (arith, v.tokens_eq))
take-lem c r (suc n) tb h v = inr (
  ground (arith, v.tokens_eq),
  ground (arith, v.tokens_eq),
  record {
    capacity_eq = ground (arith, v.capacity_eq, v.tokens_eq);
    rate_eq = ground (arith, v.rate_eq, v.tokens_eq);
    tokens_eq = ground (arith, v.tokens_eq);
    within = ground (arith, v.within);
  },
  ground (arith, v.tokens_eq),
)

abbrev one_if : Bool → ℕ
one_if true = 1
one_if false = 0

-- How many of the requests at these times are granted.
unfoldable pub granted : List ℕ → TokenBucket → ℕ
granted [] tb = 0
granted (t ∷ ts) tb = let (tb', done) = allow t tb in one_if done + granted ts tb'

-- The times ascend, from `start` to `end`.
abbrev pub Ascends : ℕ → ℕ → List ℕ → Type 0
Ascends start end [] = start ≤ end
Ascends start end (t ∷ ts) = (start ≤ t) × Ascends t end ts

Ascends-le : (start end : ℕ) (ts : List ℕ) → Ascends start end ts → start ≤ end
Ascends-le start end [] a = a
Ascends-le start end (t ∷ ts) a = omega (arith, a.0, Ascends-le t end ts a.1)

refill-IsBucket :
    (now c r n : ℕ) (tb : TokenBucket)
    → IsBucket c r n tb
    → c + seconds tb.last_refill now * r < 2 ^ 63
    → IsBucket c r (refilled c n (seconds tb.last_refill now * r)) (refill now tb)
refill-IsBucket now c r n tb v h = record {
  capacity_eq = (refill-same now tb).0 ∙ v.capacity_eq;
  rate_eq = (refill-same now tb).1 ∙ v.rate_eq;
  tokens_eq = refill-tokens now c r n tb v h;
  within = cap n (seconds tb.last_refill now * r);
}
  where
    cap : (n x : ℕ) → refilled c n x ≤ c
    cap n x = ground arith

-- The tokens of a step, the time of the last refill, and what the step grants.
record Steps (c r m last : ℕ) (tb : TokenBucket) (grant : ℕ) : Type 0 where
  tokens_left : ℕ
  is_bucket : IsBucket c r tokens_left tb
  last_eq : tb.last_refill ≡ last
  spent : tokens_left + grant ≤ m

allow-Steps :
    (now c r n : ℕ) (tb : TokenBucket)
    → IsBucket c r n tb
    → c + seconds tb.last_refill now * r < 2 ^ 63
    → Steps c r
        (refilled c n (seconds tb.last_refill now * r))
        (if ltb 0 (seconds tb.last_refill now * r) then now else tb.last_refill)
        (allow now tb).0
        (one_if (allow now tb).1)
unfolding allow
allow-Steps now c r n tb v h =
    let m : ℕ = refilled c n (seconds tb.last_refill now * r) in
    let f : IsBucket c r m (refill now tb) = refill-IsBucket now c r n tb v h in
    let l = refill-last now c r n tb v (omega (arith, h)) in
    elim (take-lem c r m (refill now tb) (omega (arith, f.within, h)) f) [
      | inl (empty, refused, same) ↦ record {
        tokens_left = m;
        is_bucket = rw same f;
        last_eq = rw same l;
        spent = rw refused (omega arith);
      }
      | inr (some_left, done, b, e) ↦ record {
        tokens_left = m - 1;
        is_bucket = b;
        last_eq = e ∙ l;
        spent = rw done (omega (arith, some_left));
      }
    ]

later :
    (b : Bool) (last t end : ℕ)
    → last ≤ t
    → ((if b then t else last) ≤ t) × (seconds (if b then t else last) end ≤ seconds last end)
later true last t end h = omega arith
later false last t end h = omega arith

granted-budget :
    (ts : List ℕ) (last start end c r n : ℕ) (tb : TokenBucket)
    → tb.last_refill ≡ last
    → IsBucket c r n tb
    → last ≤ start
    → Ascends start end ts
    → c + seconds last end * r < 2 ^ 63
    → granted ts tb ≤ budget n last end r
unfolding granted
granted-budget [] last start end c r n tb e v h a k = omega arith
granted-budget (t ∷ ts) last start end c r n tb e v h a k =
    let before_end : t ≤ end = Ascends-le t end ts a.1 in
    let last' : ℕ = if ltb 0 (seconds last t * r) then t else last in
    let fewer : seconds last t * r ≤ seconds last end * r =
      mul_mono (seconds last t) (seconds last end) r (omega arith) in
    let s : Steps c r (refilled c n (seconds last t * r)) last' (allow t tb).0
        (one_if (allow t tb).1) =
      subst
        (λ l.
          Steps c r (refilled c n (seconds l t * r)) (if ltb 0 (seconds l t * r) then t else l)
            (allow t tb).0 (one_if (allow t tb).1))
        e (allow-Steps t c r n tb v (rw e (omega (arith, fewer)))) in
    let less : budget (refilled c n (seconds last t * r)) last' end r ≤ budget n last end r =
      refilled-le last t end c r n (omega (arith, a.0)) before_end v.within in
    let order = later (ltb 0 (seconds last t * r)) last t end (omega (arith, a.0)) in
    let fewer_left : seconds last' end * r ≤ seconds last end * r =
      mul_mono (seconds last' end) (seconds last end) r order.1 in
    let rest =
      granted-budget ts last' t end c r s.tokens_left (allow t tb).0 s.last_eq s.is_bucket order.0
        a.1 (omega (arith, fewer_left)) in
    omega (arith, rest, s.spent, less)

-- From a bucket with `n` tokens no more requests are granted at the times `ts`, in ascending order
-- up to `end`, than `n` and the rate times the whole seconds since the last refill. The capacity
-- and all that is refilled come to less than 2 ^ 63, and no time is before the last refill.
pub granted-le :
    (ts : List ℕ) (start end c r n : ℕ) (tb : TokenBucket)
    → IsBucket c r n tb
    → tb.last_refill ≤ start
    → Ascends start end ts
    → c + seconds tb.last_refill end * r < 2 ^ 63
    → granted ts tb ≤ n + seconds tb.last_refill end * r
granted-le ts start end c r n tb v h a k =
    granted-budget ts tb.last_refill start end c r n tb refl v h a k

-- A bucket grants a request that comes a second or more after the last refill. Its capacity and its
-- rate are not 0, and the capacity and what is refilled come to less than 2 ^ 63.
allow_after_second :
    (now c r n : ℕ) (tb : TokenBucket)
    → IsBucket c r n tb
    → 0 < c
    → 0 < r
    → tb.last_refill + 1_000_000_000 ≤ now
    → c + seconds tb.last_refill now * r < 2 ^ 63
    → (allow now tb).1 ≡ true
unfolding allow
allow_after_second now c r n tb v some_c some_r h k =
    let more : ℕ = seconds tb.last_refill now * r in
    let f : IsBucket c r (refilled c n more) (refill now tb) = refill-IsBucket now c r n tb v k in
    let some_more : 1 * r ≤ more = mul_mono 1 (seconds tb.last_refill now) r (omega arith) in
    let left : 0 < refilled c n more = refilled_pos c n more some_c (omega (arith, some_more)) in
    elim (take-lem c r (refilled c n more) (refill now tb) (omega (arith, f.within, k)) f) [
      | inl (empty, refused, same) ↦ absurd (omega (arith, left, empty))
      | inr (some_left, done, b, e) ↦ done
    ]
  where
    refilled_pos : (c n x : ℕ) → 0 < c → 0 < x → 0 < refilled c n x
    refilled_pos c n x h k = ground arith
