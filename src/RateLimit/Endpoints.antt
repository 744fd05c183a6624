-- ===== src/RateLimit/Endpoints.antt =====
-- pkg/ratelimit/ratelimit.go: endpoints without a limiter of their own.
use upcow.Base.{ℕ, String, true, none, ◌≡◌, arith}
use upcow.Base.Dict.{Dict, lookup}
use upcow.RateLimit.{
  RateLimiter, allow_endpoint, limiter_key, allow_by_key, allow_limiter, allow_request,
  new_sliding_window, valid_requests,
}

-- A request for an endpoint without a limiter, where there is no general one, is always granted,
-- and nothing is counted.
pub allow_endpoint-unknown :
    (now : ℕ) (limiters : Dict RateLimiter) (endpoint : String)
    → lookup endpoint limiters ≡ none
    → lookup "clob:general" limiters ≡ none
    → allow_endpoint now limiters endpoint ≡ (limiters, true)
unfolding allow_endpoint limiter_key allow_by_key allow_limiter allow_request new_sliding_window
    valid_requests
allow_endpoint-unknown now m endpoint h k = ground arith
