-- ===== src/Risk/Laws.antt =====
-- internal/risk/circuit_breaker.go: what the breaker decides.
use mathlib.Core.Path.{subst}
use upcow.Base.{
  ℕ, zero, suc, true, false, not, ◌&&◌, ◌<◌, ◌+◌, ◌^◌, ◌≤◌, ◌≡◌, ◌∙◌, refl, List, [], ◌∷◌, arith,
  leb, ltb, ap,
}
use upcow.Base.Int.{ℤ, pos, negsuc, add64, sub64, le_int, eq_int, ◌+ℤ◌, ◌-ℤ◌}
use upcow.Risk.{
  CircuitBreaker, Clock, halt, roll_day_if_needed, recovers, recover, check_loss, check_errors,
  allow_trading, on_error, add_pnl_cents,
}

-- Who is refused finds the breaker halted afterwards, and who is allowed finds it not halted.
pub allow_trading-halted :
    (now : Clock) (cb : CircuitBreaker)
    → (allow_trading now cb).0.halted ≡ not (allow_trading now cb).1
unfolding allow_trading check_errors check_loss halt roll_day_if_needed recover
allow_trading-halted now cb = ground arith

sub64_self : (x : ℤ) → sub64 x x ≡ pos 0
unfolding sub64 ◌-ℤ◌
sub64_self (pos n) = ground arith
sub64_self (negsuc n) = ground arith

-- A second request at the same time gets the answer of the first and changes nothing more.
pub allow_trading_twice :
    (now : Clock) (cb : CircuitBreaker)
    → allow_trading now (allow_trading now cb).0 ≡ allow_trading now cb
unfolding allow_trading check_errors check_loss halt roll_day_if_needed recover recovers
allow_trading_twice now cb = ground (arith, sub64_self now.unix)

-- `n` failures in a row.
abbrev pub fail : ℕ → CircuitBreaker → CircuitBreaker
fail zero cb = cb
fail (suc n) cb = on_error (fail n cb)

-- Nothing but the count of errors changes.
record SameBut (n : ℕ) (a cb : CircuitBreaker) : Type 0 where
  halted_eq : a.halted ≡ cb.halted
  errors : a.consecutive_errors ≡ pos n
  max_eq : a.max_consecutive_errors ≡ cb.max_consecutive_errors
  limit_eq : a.daily_loss_limit_cents ≡ cb.daily_loss_limit_cents

fail-SameBut :
    (n : ℕ) (cb : CircuitBreaker)
    → n < 2 ^ 63
    → cb.consecutive_errors ≡ pos 0
    → SameBut n (fail n cb) cb
unfolding on_error add64 ◌+ℤ◌
fail-SameBut zero cb h e = record { halted_eq = refl; errors = e; max_eq = refl; limit_eq = refl }
fail-SameBut (suc n) cb h e =
    let s : SameBut n (fail n cb) cb = fail-SameBut n cb (omega arith) e in
    record {
      halted_eq = s.halted_eq;
      errors = ground (arith, s.errors);
      max_eq = s.max_eq;
      limit_eq = s.limit_eq;
    }

-- Without a loss limit, a breaker that is not halted and has no error yet allows trading after `n`
-- failures in a row just if there are fewer than `most`, the errors that it is set to bear. `most`
-- is not 0, and `n` is less than 2 ^ 63.
pub allow_trading-fail :
    (now : Clock) (n most : ℕ) (cb : CircuitBreaker)
    → n < 2 ^ 63
    → 0 < most
    → cb.halted ≡ false
    → cb.consecutive_errors ≡ pos 0
    → cb.max_consecutive_errors ≡ pos most
    → cb.daily_loss_limit_cents ≡ pos 0
    → (allow_trading now (fail n cb)).1 ≡ ltb n most
unfolding allow_trading check_errors check_loss halt
allow_trading-fail now n most cb h some_most closed none_yet m l =
    let s : SameBut n (fail n cb) cb = fail-SameBut n cb h none_yet in
    ground (arith, s.halted_eq, s.errors, s.max_eq, s.limit_eq)

elapsed-leb :
    (t since c : ℕ)
    → t < 2 ^ 63
    → since < 2 ^ 63
    → le_int (pos c) (sub64 (pos t) (pos since)) ≡ leb (since + c) t
unfolding sub64 ◌-ℤ◌
elapsed-leb t since c h i = ground arith

recovers-leb :
    (now : Clock) (cb : CircuitBreaker) (c since t : ℕ)
    → cb.cooldown_seconds ≡ pos c
    → cb.last_halted_at ≡ pos since
    → now.unix ≡ pos t
    → t < 2 ^ 63
    → since < 2 ^ 63
    → recovers now cb ≡ ltb 0 c && ltb 0 since && leb (since + c) t
unfolding recovers
recovers-leb now cb c since t cool at_time n h i =
    ground (arith, cool, at_time, n, elapsed-leb t since c h i)

-- A halted breaker with a cooldown of `c` seconds, halted at the time `since`, refuses at a time
-- `t` before `since + c`, whatever the counts say, and stays as it is. Both times are less than 2 ^
-- 63.
pub allow_trading_in_cooldown :
    (now : Clock) (cb : CircuitBreaker) (c since t : ℕ)
    → cb.halted ≡ true
    → cb.cooldown_seconds ≡ pos c
    → cb.last_halted_at ≡ pos since
    → now.unix ≡ pos t
    → t < 2 ^ 63
    → since < 2 ^ 63
    → t < since + c
    → allow_trading now cb ≡ (cb, false)
unfolding allow_trading
allow_trading_in_cooldown now cb c since t h cool at_time n i j early =
    ground (arith, recovers-leb now cb c since t cool at_time n i j)

-- A halted breaker with a cooldown of `c` seconds that is not 0, halted at a time `since` that is
-- not 0, allows trading at a time `t` from `since + c` on, and forgets the errors, if it has no
-- loss limit. `t` is less than 2 ^ 63.
pub allow_trading_after_cooldown :
    (now : Clock) (cb : CircuitBreaker) (c since t : ℕ)
    → cb.halted ≡ true
    → cb.cooldown_seconds ≡ pos c
    → cb.last_halted_at ≡ pos since
    → now.unix ≡ pos t
    → t < 2 ^ 63
    → 0 < c
    → 0 < since
    → since + c ≤ t
    → cb.daily_loss_limit_cents ≡ pos 0
    → allow_trading now cb ≡ (recover cb, true)
unfolding allow_trading check_errors check_loss recover
allow_trading_after_cooldown now cb c since t h cool at_time n small some_c some_time late l =
    ground (arith, recovers-leb now cb c since t cool at_time n small (omega arith))

-- The day's results, each of them added on the day of the first.
abbrev pub add_all : Clock → List ℤ → CircuitBreaker → CircuitBreaker
add_all now [] cb = cb
add_all now (x ∷ xs) cb = add_all now xs (add_pnl_cents now cb x)

-- A day's results as a sum of cents that are lost.
abbrev pub losses : List ℕ → List ℤ
losses [] = []
losses (x ∷ xs) = (pos 0 -ℤ pos x) ∷ losses xs

abbrev pub total : List ℕ → ℕ
total [] = 0
total (x ∷ xs) = x + total xs

record HasLost (now : Clock) (n : ℕ) (a cb : CircuitBreaker) : Type 0 where
  today : a.day_key ≡ now.day
  lost : a.daily_pnl_cents ≡ pos 0 -ℤ pos n
  halted_eq : a.halted ≡ cb.halted
  errors_eq : a.consecutive_errors ≡ cb.consecutive_errors
  max_eq : a.max_consecutive_errors ≡ cb.max_consecutive_errors
  limit_eq : a.daily_loss_limit_cents ≡ cb.daily_loss_limit_cents

add_pnl-HasLost :
    (now : Clock) (n x : ℕ) (a cb : CircuitBreaker)
    → n + x < 2 ^ 63
    → HasLost now n a cb
    → HasLost now (n + x) (add_pnl_cents now a (pos 0 -ℤ pos x)) cb
unfolding add_pnl_cents roll_day_if_needed add64 ◌+ℤ◌ ◌-ℤ◌
add_pnl-HasLost now n x a cb h l = record {
  today = ground (arith, l.today);
  lost = ground (arith, l.today, l.lost);
  halted_eq = ground (arith, l.halted_eq);
  errors_eq = ground (arith, l.errors_eq);
  max_eq = ground (arith, l.max_eq);
  limit_eq = ground (arith, l.limit_eq);
}

add_all-HasLost :
    (now : Clock) (n : ℕ) (xs : List ℕ) (a cb : CircuitBreaker)
    → n + total xs < 2 ^ 63
    → HasLost now n a cb
    → HasLost now (n + total xs) (add_all now (losses xs) a) cb
add_all-HasLost now n [] a cb h l =
    subst (λ m. HasLost now m a cb) {x = n} {y = n + 0} (omega arith) l
add_all-HasLost now n (x ∷ xs) a cb h l =
    subst (λ m. HasLost now m (add_all now (losses xs) (add_pnl_cents now a (pos 0 -ℤ pos x))) cb)
      {x = n + x + total xs} {y = n + (x + total xs)} (omega arith)
      (add_all-HasLost now (n + x) xs (add_pnl_cents now a (pos 0 -ℤ pos x)) cb (omega arith)
        (add_pnl-HasLost now n x a cb (omega arith) l))

new_day-HasLost :
    (now : Clock) (cb : CircuitBreaker)
    → eq_int cb.day_key now.day ≡ false
    → HasLost now 0 (roll_day_if_needed now cb) cb
unfolding roll_day_if_needed ◌-ℤ◌
new_day-HasLost now cb other = record {
  today = ground arith;
  lost = ground arith;
  halted_eq = ground arith;
  errors_eq = ground arith;
  max_eq = ground arith;
  limit_eq = ground arith;
}

loss-ltb :
    (n limit : ℕ)
    → n < 2 ^ 63
    → limit < 2 ^ 63
    → le_int (pos 0 -ℤ pos n) (sub64 (pos 0) (pos limit)) ≡ leb limit n
unfolding sub64 ◌-ℤ◌
loss-ltb n limit h i = ground arith

decide_losses :
    (now : Clock) (a : CircuitBreaker) (n limit most : ℕ)
    → a.halted ≡ false
    → a.consecutive_errors ≡ pos 0
    → a.max_consecutive_errors ≡ pos most
    → a.daily_loss_limit_cents ≡ pos limit
    → a.day_key ≡ now.day
    → a.daily_pnl_cents ≡ pos 0 -ℤ pos n
    → 0 < limit
    → limit < 2 ^ 63
    → n < 2 ^ 63
    → (allow_trading now a).1 ≡ ltb n limit
unfolding allow_trading check_errors check_loss roll_day_if_needed
decide_losses now a n limit most closed none_yet m l today lost some_limit small h =
    ground (arith, loss-ltb n limit h small)

add_pnl_cents-rolled :
    (now : Clock) (cb : CircuitBreaker) (x : ℤ)
    → add_pnl_cents now cb x ≡ add_pnl_cents now (roll_day_if_needed now cb) x
unfolding add_pnl_cents roll_day_if_needed
add_pnl_cents-rolled now cb x = ground arith

-- Whether the day changes first or with the first result is the same for a request.
rolled-forgotten :
    (now : Clock) (cb : CircuitBreaker) (xs : List ℤ)
    → cb.halted ≡ false
    → (allow_trading now (add_all now xs cb)).1
      ≡ (allow_trading now (add_all now xs (roll_day_if_needed now cb))).1
unfolding allow_trading check_errors check_loss halt roll_day_if_needed
rolled-forgotten now cb [] h = ground arith
rolled-forgotten now cb (x ∷ xs) h =
    ap (λ (c : CircuitBreaker). (allow_trading now (add_all now xs c)).1)
      (add_pnl_cents-rolled now cb x)

-- On a new day a breaker that is not halted and has no error forgets what was lost before, and
-- allows trading after the losses `xs` just if they come to less than the limit. The limit is not
-- 0, it and the losses together are less than 2 ^ 63, and the errors the breaker bears are set to a
-- number that is not negative.
pub allow_trading-losses :
    (now : Clock) (cb : CircuitBreaker) (xs : List ℕ) (limit most : ℕ)
    → cb.halted ≡ false
    → cb.consecutive_errors ≡ pos 0
    → cb.max_consecutive_errors ≡ pos most
    → cb.daily_loss_limit_cents ≡ pos limit
    → eq_int cb.day_key now.day ≡ false
    → 0 < limit
    → limit < 2 ^ 63
    → total xs < 2 ^ 63
    → (allow_trading now (add_all now (losses xs) cb)).1 ≡ ltb (total xs) limit
allow_trading-losses now cb xs limit most closed none_yet m l other some_limit small n =
    let a : CircuitBreaker = add_all now (losses xs) (roll_day_if_needed now cb) in
    let k : HasLost now (total xs) a cb =
      subst (λ n. HasLost now n a cb) {x = 0 + total xs} {y = total xs} (omega arith)
        (add_all-HasLost now 0 xs (roll_day_if_needed now cb) cb (omega arith)
          (new_day-HasLost now cb other)) in
    rolled-forgotten now cb (losses xs) closed
    ∙ decide_losses now a (total xs) limit most (k.halted_eq ∙ closed) (k.errors_eq ∙ none_yet)
        (k.max_eq ∙ m) (k.limit_eq ∙ l) k.today k.lost some_limit small n
