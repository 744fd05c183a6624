-- ===== src/RateLimit.antt =====
-- pkg/ratelimit/ratelimit.go: the token bucket, the sliding window, and the limiters by endpoint. Times and
-- durations are in nanoseconds and not negative; each method takes the lock, so it runs alone, and reads the
-- clock once.
pub mod Bucket
pub mod Window
pub mod Endpoints
pub mod Tests
use upcow.Base.{
  ℕ, String, Bool, true, false, is_some, ◌&&◌, ◌+◌, ◌-◌, ◌*◌, ◌/◌, List, [], ◌∷◌, ◌++◌, Option,
  none, some, if◌then◌else◌, ltb, length,
}
use upcow.Base.Int.{ℤ, pos, add64, sub64, mul64, lt_int, le_int, eq_int, pos_part}
use upcow.Base.Dict.{Dict, lookup, insert}

pub record TokenBucket : Type 0 where
  pub capacity : ℤ
  pub tokens : ℤ
  pub refill_rate : ℤ
  pub window_size : ℕ
  pub last_refill : ℕ

unfoldable pub new_token_bucket : ℕ → ℤ → ℤ → ℕ → TokenBucket
new_token_bucket now capacity refill_rate window_size = record {
  capacity = capacity;
  tokens = capacity;
  refill_rate = refill_rate;
  window_size = window_size;
  last_refill = now;
}

-- The file's own `min` and `max`.
unfoldable pub min_int : ℤ → ℤ → ℤ
min_int a b = if lt_int a b then a else b

unfoldable pub max_int : ℤ → ℤ → ℤ
max_int a b = if lt_int b a then a else b

-- Only whole seconds count: `int(elapsed.Seconds())`.
unfoldable pub refill : ℕ → TokenBucket → TokenBucket
unfolding min_int
refill now tb =
    if lt_int (pos 0) tokens_to_add
    then record tb {
      tokens = min_int tb.capacity (add64 tb.tokens tokens_to_add);
      last_refill = now;
    }
    else tb
  where
    tokens_to_add : ℤ
    tokens_to_add = mul64 (pos ((now - tb.last_refill) / 1_000_000_000)) tb.refill_rate

unfoldable pub take_token : TokenBucket → TokenBucket × Bool
take_token tb =
    if lt_int (pos 0) tb.tokens
    then (record tb { tokens = sub64 tb.tokens (pos 1) }, true)
    else (tb, false)

unfoldable pub allow : ℕ → TokenBucket → TokenBucket × Bool
unfolding take_token refill
allow now tb = take_token (refill now tb)

-- How long `Wait` sleeps after a refusal, before it asks again.
unfoldable pub wait_time : TokenBucket → ℕ
wait_time tb =
    if eq_int tb.tokens (pos 0) && lt_int (pos 0) tb.refill_rate && ltb 0 for_one
    then for_one
    else tb.window_size
  where
    for_one : ℕ
    for_one = 1_000_000_000 / pos_part tb.refill_rate

-- `Wait`: the rounds until the context is done, each with the clock of its two refills. `false` is the
-- context's error.
unfoldable pub wait : List (ℕ × ℕ) → TokenBucket → TokenBucket × Bool
unfolding allow refill
wait [] tb = (tb, false)
wait ((t, u) ∷ rounds) tb =
    let (tb', done) = allow t tb in
    let rest = wait rounds (refill u tb') in if done then (tb', true) else rest

unfoldable pub get_remaining : ℕ → TokenBucket → TokenBucket × ℤ
unfolding refill
get_remaining now tb = let tb' = refill now tb in (tb', tb'.tokens)

-- The time at which the bucket is full again, as far as whole seconds say.
unfoldable pub get_reset_time : ℕ → TokenBucket → TokenBucket × ℕ
unfolding refill
get_reset_time now tb =
    let tb' = refill now tb in
    (
      tb',
      if lt_int tb'.tokens tb'.capacity && lt_int (pos 0) tb'.refill_rate
          then now
            + pos_part (sub64 tb'.capacity tb'.tokens) / pos_part tb'.refill_rate * 1_000_000_000
          else now,
    )

-- The requests are the times of the granted ones, the oldest first.
pub record SlidingWindow : Type 0 where
  pub limit : ℤ
  pub window_size : ℕ
  pub requests : List ℕ

unfoldable pub new_sliding_window : ℤ → ℕ → SlidingWindow
new_sliding_window limit window_size = record {
  limit = limit;
  window_size = window_size;
  requests = [];
}

-- The requests after `now - window`.
unfoldable pub valid_requests : ℕ → ℕ → List ℕ → List ℕ
valid_requests now window [] = []
valid_requests now window (t ∷ ts) =
    let rest = valid_requests now window ts in if ltb now (t + window) then t ∷ rest else rest

unfoldable pub allow_request : ℕ → SlidingWindow → SlidingWindow × Bool
unfolding valid_requests
allow_request now sw =
    if le_int sw.limit (pos (length valid))
    then (record sw { requests = valid }, false)
    else (record sw { requests = valid ++ now ∷ [] }, true)
  where
    valid : List ℕ
    valid = valid_requests now sw.window_size sw.requests

unfoldable pub remaining_requests : ℕ → SlidingWindow → ℤ
unfolding valid_requests max_int
remaining_requests now sw =
    max_int (pos 0) (sub64 sw.limit (pos (length (valid_requests now sw.window_size sw.requests))))

abbrev first_or : ℕ → List ℕ → ℕ
first_or now [] = now
first_or now (t ∷ ts) = t

-- When the oldest request leaves the window.
unfoldable pub request_reset_time : ℕ → SlidingWindow → ℕ
request_reset_time now sw = reset_from sw.requests
  where
    reset_from : List ℕ → ℕ
    reset_from [] = now
    reset_from (t ∷ ts) = t + sw.window_size

-- How long `Wait` sleeps after a refusal; `now` is the clock at each of its two readings.
unfoldable pub request_wait_time : ℕ → SlidingWindow → ℕ
request_wait_time now sw =
    if ltb (now - oldest) sw.window_size then sw.window_size - (now - oldest) else 100_000_000
  where
    oldest : ℕ
    oldest = first_or now sw.requests

unfoldable pub wait_request : List ℕ → SlidingWindow → SlidingWindow × Bool
unfolding allow_request
wait_request [] sw = (sw, false)
wait_request (t ∷ rounds) sw =
    let (sw', done) = allow_request t sw in
    let rest = wait_request rounds sw' in if done then (sw', true) else rest

pub data RateLimiter : Type 0 where
  bucket : TokenBucket → RateLimiter
  window : SlidingWindow → RateLimiter

-- The interface's `Allow`, and its `GetRemaining`.
unfoldable pub allow_limiter : ℕ → RateLimiter → RateLimiter × Bool
unfolding allow allow_request
allow_limiter now (bucket tb) = let (tb', done) = allow now tb in (bucket tb', done)
allow_limiter now (window sw) = let (sw', done) = allow_request now sw in (window sw', done)

unfoldable pub limiter_remaining : ℕ → RateLimiter → RateLimiter × ℤ
unfolding get_remaining remaining_requests
limiter_remaining now (bucket tb) = let (tb', n) = get_remaining now tb in (bucket tb', n)
limiter_remaining now (window sw) = (window sw, remaining_requests now sw)

abbrev ten_seconds : ℕ
ten_seconds = 10_000_000_000

abbrev a_bucket : ℕ → ℕ → ℕ → RateLimiter
a_bucket now capacity rate = bucket (new_token_bucket now (pos capacity) (pos rate) ten_seconds)

abbrev a_window : ℕ → RateLimiter
a_window limit = window (new_sliding_window (pos limit) ten_seconds)

-- The limiters of a new RateLimitManager.
unfoldable pub default_limiters : ℕ → Dict RateLimiter
unfolding new_token_bucket new_sliding_window
default_limiters now =
    ("clob:order:post", a_bucket now 2400 240)
    ∷ ("clob:order:delete", a_bucket now 2400 240)
    ∷ ("clob:orders:post", a_bucket now 800 80)
    ∷ ("clob:orders:delete", a_bucket now 800 80)
    ∷ ("clob:orders:get", a_window 150)
    ∷ ("clob:trades:get", a_window 150)
    ∷ ("clob:book:get", a_window 200)
    ∷ ("clob:price:get", a_window 200)
    ∷ ("gamma:markets:get", a_window 125)
    ∷ ("gamma:events:get", a_window 100)
    ∷ ("gamma:general", a_window 750)
    ∷ ("data:general", a_window 200)
    ∷ ("data:trades:get", a_window 75)
    ∷ []

-- The key of the limiter for an endpoint; `none` where a new one stands in each time.
abbrev known_or_general : Dict RateLimiter → String → Option RateLimiter → Option String
known_or_general m endpoint (some l) = some endpoint
known_or_general m endpoint none =
    if is_some (lookup "clob:general" m) then some "clob:general" else none

unfoldable pub limiter_key : Dict RateLimiter → String → Option String
limiter_key m endpoint = known_or_general m endpoint (lookup endpoint m)

abbrev store_limiter : Dict RateLimiter → String → RateLimiter × Bool → Dict RateLimiter × Bool
store_limiter m k (l, done) = (insert k l m, done)

unfoldable pub allow_found :
    ℕ → Dict RateLimiter → String → Option RateLimiter → Dict RateLimiter × Bool
unfolding allow_limiter
allow_found now m k none = (m, true)
allow_found now m k (some l) = store_limiter m k (allow_limiter now l)

-- `GetLimiter`'s last resort is a new window for each call.
unfoldable pub allow_by_key : ℕ → Dict RateLimiter → Option String → Dict RateLimiter × Bool
unfolding allow_found allow_limiter new_sliding_window
allow_by_key now m none =
    (m, (allow_limiter now (window (new_sliding_window (pos 5000) ten_seconds))).1)
allow_by_key now m (some k) = allow_found now m k (lookup k m)

unfoldable pub allow_endpoint : ℕ → Dict RateLimiter → String → Dict RateLimiter × Bool
unfolding limiter_key allow_by_key
allow_endpoint now m endpoint = allow_by_key now m (limiter_key m endpoint)
