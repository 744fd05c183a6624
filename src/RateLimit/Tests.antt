-- ===== src/RateLimit/Tests.antt =====
-- pkg/ratelimit/ratelimit.go at concrete limiters.
use upcow.Base.{true, ℕ, [], ◌∷◌, ◌≡◌, ◌≤◌, refl, some, arith, List}
use upcow.Base.Int.{pos, add64, sub64, mul64}
use upcow.Base.Text.{String_discrete}
use upcow.Base.Dict.{lookup}
use upcow.RateLimit.{
  TokenBucket, new_token_bucket, refill, min_int, take_token, allow, allow_request,
  new_sliding_window, valid_requests, default_limiters, limiter_key, allow_endpoint,
}
use upcow.RateLimit.Bucket.{IsBucket, granted, granted-le}
use upcow.RateLimit.Endpoints.{allow_endpoint-unknown}
use upcow.RateLimit.Window.{run_window, count_within, run_window-length}

-- Two requests, and one more each second.
abbrev small : TokenBucket
small = new_token_bucket 0 (pos 2) (pos 1) 10_000_000_000

small-IsBucket : IsBucket 2 1 2 small
unfolding new_token_bucket
small-IsBucket = record {
  capacity_eq = refl;
  rate_eq = refl;
  tokens_eq = refl;
  within = omega arith;
}

-- The times of five requests, within two seconds.
abbrev times : List ℕ
times = 100 ∷ 200 ∷ 300 ∷ 1_500_000_000 ∷ 1_999_999_999 ∷ []

three_of_five : granted times small ≡ 3
unfolding granted allow take_token refill min_int new_token_bucket add64 sub64 mul64
three_of_five = refl

-- The half second after 1.5 s is lost: a second request at 2.4 s finds no new token.
fraction_lost : granted (100 ∷ 200 ∷ 1_500_000_000 ∷ 2_400_000_000 ∷ []) small ≡ 3
unfolding granted allow take_token refill min_int new_token_bucket add64 sub64 mul64
fraction_lost = refl

granted-le_example : granted times small ≤ 3
unfolding new_token_bucket
granted-le_example =
    granted-le times 0 1_999_999_999 2 1 2 small small-IsBucket (omega arith) (omega arith)
      (omega arith)

run_window-length_example :
    count_within 25 10
      (run_window (1 ∷ 12 ∷ 15 ∷ 18 ∷ 25 ∷ []) (new_sliding_window (pos 2) 10) []).1
    ≤ 2
run_window-length_example = run_window-length (1 ∷ 12 ∷ 15 ∷ 18 ∷ 25 ∷ []) 25 2 10 (omega arith)

window_grants :
    (run_window (1 ∷ 12 ∷ 15 ∷ 18 ∷ 25 ∷ []) (new_sliding_window (pos 2) 10) []).1
    ≡ 1 ∷ 12 ∷ 15 ∷ 25 ∷ []
unfolding run_window allow_request new_sliding_window valid_requests
window_grants = refl

known_endpoint : limiter_key (default_limiters 0) "data:general" ≡ some "data:general"
unfolding limiter_key default_limiters lookup String_discrete
known_endpoint = refl

-- An endpoint that has no limiter gets a new window for each request.
unknown_endpoint :
    allow_endpoint 7 (default_limiters 0) "clob:positions" ≡ (default_limiters 0, true)
unfolding default_limiters lookup String_discrete
unknown_endpoint = allow_endpoint-unknown 7 (default_limiters 0) "clob:positions" refl refl
