-- ===== src/RateLimit/Window.antt =====
-- pkg/ratelimit/ratelimit.go: what a sliding window grants.
use upcow.Base.{
  ℕ, true, false, ◌+◌, ◌≤◌, ◌<◌, List, [], ◌∷◌, ◌++◌, ◌≡◌, refl, ◌∙◌, sym, ap, arith, if◌then◌else◌,
  ltb, length, length-append, Bool-cases, ◌⊎◌, inl, inr, leb,
}
use upcow.Base.Int.{pos}
use upcow.RateLimit.{SlidingWindow, new_sliding_window, valid_requests, allow_request}
use upcow.RateLimit.Bucket.{Ascends}

-- The times at which requests at these times are granted, after those of `done`.
unfoldable pub run_window : List ℕ → SlidingWindow → List ℕ → SlidingWindow × List ℕ
run_window [] sw done = (sw, done)
run_window (t ∷ ts) sw done =
    let (sw', granted) = allow_request t sw in
    run_window ts sw' (if granted then done ++ t ∷ [] else done)

valid_append :
    (now window : ℕ) (xs ys : List ℕ)
    → valid_requests now window (xs ++ ys)
      ≡ valid_requests now window xs ++ valid_requests now window ys
unfolding valid_requests
valid_append now window [] ys = refl
valid_append now window (x ∷ xs) ys = ground (arith, valid_append now window xs ys)

-- What is too old stays so.
valid_later :
    (now later window : ℕ) (xs : List ℕ)
    → now ≤ later
    → valid_requests later window (valid_requests now window xs) ≡ valid_requests later window xs
unfolding valid_requests
valid_later now later window [] h = refl
valid_later now later window (x ∷ xs) h = ground (arith, valid_later now later window xs h)

-- The requests kept are the granted ones that the window still holds.
record IsWindow (now limit : ℕ) (window : ℕ) (done : List ℕ) (sw : SlidingWindow) : Type 0 where
  limit_eq : sw.limit ≡ pos limit
  window_eq : sw.window_size ≡ window
  kept : valid_requests now window sw.requests ≡ valid_requests now window done
  few : length (valid_requests now window done) ≤ limit

valid-length-le : (now window : ℕ) (xs : List ℕ) → length (valid_requests now window xs) ≤ length xs
unfolding valid_requests
valid-length-le now window [] = omega arith
valid-length-le now window (x ∷ xs) = ground (arith, valid-length-le now window xs)

allow-cases :
    (now limit window : ℕ) (sw : SlidingWindow)
    → sw.limit ≡ pos limit
    → sw.window_size ≡ window
    → (((allow_request now sw).1 ≡ false)
        × ((allow_request now sw).0.requests ≡ valid_requests now window sw.requests))
      ⊎ (((allow_request now sw).1 ≡ true)
          × ((allow_request now sw).0.requests ≡ valid_requests now window sw.requests ++ now ∷ [])
          × (length (valid_requests now window sw.requests) < limit))
unfolding allow_request
allow-cases now limit window sw e f =
    elim (Bool-cases (leb limit (length (valid_requests now window sw.requests)))) [
      | inl full ↦ inl (ground arith, ground arith)
      | inr free ↦ inr (ground arith, ground arith, ground arith)
    ]

allow-same :
    (now : ℕ) (sw : SlidingWindow)
    → ((allow_request now sw).0.limit ≡ sw.limit)
      × ((allow_request now sw).0.window_size ≡ sw.window_size)
unfolding allow_request
allow-same now sw = ground arith

later-IsWindow :
    (before now limit window : ℕ) (done : List ℕ) (sw : SlidingWindow)
    → before ≤ now
    → IsWindow before limit window done sw
    → IsWindow now limit window done sw
later-IsWindow before now limit window done sw h v = record {
  limit_eq = v.limit_eq;
  window_eq = v.window_eq;
  kept =
      sym (valid_later before now window sw.requests h)
      ∙ ap (valid_requests now window) v.kept
      ∙ valid_later before now window done h;
  few = omega (
    arith,
    valid-length-le now window (valid_requests before window done),
    ap length (valid_later before now window done h),
    v.few,
  );
}

step-IsWindow :
    (before now limit window : ℕ) (done : List ℕ) (sw : SlidingWindow)
    → before ≤ now
    → IsWindow before limit window done sw
    → IsWindow now limit window
        (if (allow_request now sw).1 then done ++ now ∷ [] else done)
        (allow_request now sw).0
step-IsWindow before now limit window done sw h v =
    let l : IsWindow now limit window done sw =
      later-IsWindow before now limit window done sw h v in
    let same = allow-same now sw in
    elim (allow-cases now limit window sw v.limit_eq v.window_eq) [
      | inl (refused, e) ↦ record {
        limit_eq = same.0 ∙ v.limit_eq;
        window_eq = same.1 ∙ v.window_eq;
        kept = rw (refused, e) (valid_later now now window sw.requests (omega arith) ∙ l.kept);
        few = rw refused l.few;
      }
      | inr (granted, e, free) ↦ record {
        limit_eq = same.0 ∙ v.limit_eq;
        window_eq = same.1 ∙ v.window_eq;
        kept = rw (
          granted,
          e,
          valid_append now window (valid_requests now window sw.requests) (now ∷ []),
          valid_append now window done (now ∷ []),
          valid_later now now window sw.requests (omega arith),
          l.kept,
        );
        few =
            rw (granted, valid_append now window done (now ∷ []))
              (omega (
                arith,
                length-append (valid_requests now window done)
                    (valid_requests now window (now ∷ [])),
                valid-length-le now window (now ∷ []),
                free,
                ap length l.kept,
              ));
      }
    ]

run-IsWindow :
    (ts : List ℕ) (before end limit window : ℕ) (done : List ℕ) (sw : SlidingWindow)
    → Ascends before end ts
    → IsWindow before limit window done sw
    → IsWindow end limit window (run_window ts sw done).1 (run_window ts sw done).0
unfolding run_window
run-IsWindow [] before end limit window done sw a v =
    later-IsWindow before end limit window done sw a v
run-IsWindow (t ∷ ts) before end limit window done sw a v =
    run-IsWindow ts t end limit window (if (allow_request t sw).1 then done ++ t ∷ [] else done)
      (allow_request t sw).0 a.1 (step-IsWindow before t limit window done sw a.0 v)

-- How many of the times lie in the window that ends at `end`.
abbrev pub count_within : ℕ → ℕ → List ℕ → ℕ
count_within end window [] = 0
count_within end window (t ∷ ts) =
    (if ltb end (t + window) then 1 else 0) + count_within end window ts

length-valid :
    (end window : ℕ) (ts : List ℕ)
    → length (valid_requests end window ts) ≡ count_within end window ts
unfolding valid_requests
length-valid end window [] = refl
length-valid end window (t ∷ ts) = ground (arith, length-valid end window ts)

-- After any requests in ascending order of time on a new sliding window, no more than its limit of
-- those granted lie within the window that ends at `end`, which is not before the last request.
pub run_window-length :
    (ts : List ℕ) (end limit window : ℕ)
    → Ascends 0 end ts
    → count_within end window (run_window ts (new_sliding_window (pos limit) window) []).1 ≤ limit
unfolding new_sliding_window valid_requests
run_window-length ts end limit window a =
    let v : IsWindow end limit window (run_window ts (new_sliding_window (pos limit) window) []).1
        (run_window ts (new_sliding_window (pos limit) window) []).0 =
      run-IsWindow ts 0 end limit window [] (new_sliding_window (pos limit) window) a
        (record { limit_eq = refl; window_eq = refl; kept = refl; few = omega arith }) in
    omega (
      arith,
      v.few,
      length-valid end window (run_window ts (new_sliding_window (pos limit) window) []).1,
    )
