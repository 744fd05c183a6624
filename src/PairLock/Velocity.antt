-- ===== src/PairLock/Velocity.antt =====
-- velocitypairlock/velocity.go: how fast a price moves within a window of time. Times and the window are in
-- nanoseconds and not negative.
use upcow.Base.{
  ℕ, ◌+◌, ◌-◌, ◌*◌, ◌/◌, ◌%◌, List, [], ◌∷◌, ◌++◌, Option, none, some, if◌then◌else◌, ltb,
}
use upcow.Base.Int.{ℤ, pos, sub64, pos_part}
use upcow.Base.Float.{Float}
use upcow.PairLock.Config.{if_unset}

pub record PricePoint : Type 0 where
  pub at : ℕ
  pub cents : ℤ

pub record VelocityTracker : Type 0 where
  pub window : ℕ
  pub points : List PricePoint

unfoldable pub new_velocity_tracker : ℤ → VelocityTracker
new_velocity_tracker window_seconds = record {
  window = pos_part (if_unset 10 window_seconds) * 1_000_000_000;
  points = [];
}

unfoldable pub reset : VelocityTracker → VelocityTracker
reset t = record t { points = [] }

-- The points from the first one that is not before `now - window` on.
unfoldable pub prune : ℕ → ℕ → List PricePoint → List PricePoint
prune window now [] = []
prune window now (p ∷ ps) =
    let rest = prune window now ps in if ltb (p.at + window) now then rest else p ∷ ps

abbrev pub time_or : ℕ → Option ℕ → ℕ
time_or now none = now
time_or now (some at) = at

-- `now` is the clock, for a point without a time.
unfoldable pub add : ℕ → Option ℕ → ℤ → VelocityTracker → VelocityTracker
unfolding prune
add now at cents t = record t {
  points =
      prune t.window (time_or now at)
        (t.points ++ record { at = time_or now at; cents = cents } ∷ []);
}

-- The last point of `p ∷ ps`.
abbrev last_point : PricePoint → List PricePoint → PricePoint
last_point p [] = p
last_point p (q ∷ ps) = last_point q ps

module _ ⦃fl : Float⦄ where
  open fl use {F, add_f, div_f, of_int}

  pub record Velocity : Type 0 where
    pub velocity : F
    pub move : ℤ
    pub dt : F

  -- `Duration.Seconds`.
  unfoldable pub seconds_f : ℕ → F
  seconds_f d =
      add_f (of_int (pos (d / 1_000_000_000)))
        (div_f (of_int (pos (d % 1_000_000_000))) (of_int (pos 1_000_000_000)))

  -- A duration is positive just if its seconds are.
  abbrev speed : PricePoint → PricePoint → Option Velocity
  speed first last =
      if ltb first.at last.at
      then some (record {
        velocity = div_f (of_int (sub64 last.cents first.cents)) (seconds_f (last.at - first.at));
        move = sub64 last.cents first.cents;
        dt = seconds_f (last.at - first.at);
      })
      else none

  abbrev speed_of : List PricePoint → Option Velocity
  speed_of [] = none
  speed_of (p ∷ []) = none
  speed_of (p ∷ q ∷ ps) = speed p (last_point q ps)

  -- `none` where it cannot be computed.
  unfoldable pub velocity_cents_per_sec : VelocityTracker → Option Velocity
  unfolding seconds_f
  velocity_cents_per_sec t = speed_of t.points
