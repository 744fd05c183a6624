-- ===== src/Risk.antt =====
-- internal/risk/circuit_breaker.go: the breaker. Its atomic fields are the fields of a record, and a
-- method runs alone: no other goroutine writes between its steps. A Clock says what `time.Now()` does. The nil
-- breaker, which does nothing and allows everything, is left out.
pub mod Laws
pub mod Tests
use upcow.Base.{ℕ, Bool, true, false, not, ◌&&◌, Option, none, some, if◌then◌else◌}
use upcow.Base.Int.{ℤ, pos, add64, sub64, lt_int, le_int, eq_int}

pub record CircuitBreakerConfig : Type 0 where
  pub max_consecutive_errors : ℤ
  pub daily_loss_limit_cents : ℤ
  pub cooldown_seconds : ℤ

pub record CircuitBreaker : Type 0 where
  pub halted : Bool
  pub consecutive_errors : ℤ
  pub daily_pnl_cents : ℤ
  pub day_key : ℤ
  pub last_halted_at : ℤ
  pub cooldown_seconds : ℤ
  pub max_consecutive_errors : ℤ
  pub daily_loss_limit_cents : ℤ

-- Unix seconds, and the day as YYYYMMDD.
pub record Clock : Type 0 where
  pub unix : ℤ
  pub day : ℤ

unfoldable pub set_config : CircuitBreaker → CircuitBreakerConfig → CircuitBreaker
set_config cb cfg = record cb {
  max_consecutive_errors = cfg.max_consecutive_errors;
  daily_loss_limit_cents = cfg.daily_loss_limit_cents;
  cooldown_seconds =
      if lt_int (pos 0) cfg.cooldown_seconds then cfg.cooldown_seconds else cb.cooldown_seconds;
}

unfoldable pub new_circuit_breaker : CircuitBreakerConfig → CircuitBreaker
unfolding set_config
new_circuit_breaker cfg = set_config blank cfg
  where
    blank : CircuitBreaker
    blank = record {
      halted = false;
      consecutive_errors = pos 0;
      daily_pnl_cents = pos 0;
      day_key = pos 0;
      last_halted_at = pos 0;
      cooldown_seconds = pos 0;
      max_consecutive_errors = pos 0;
      daily_loss_limit_cents = pos 0;
    }

-- The swap of `halted` from false to true, and what goes with it.
unfoldable pub halt : Clock → CircuitBreaker → CircuitBreaker
halt now cb = if cb.halted then cb else record cb { halted = true; last_halted_at = now.unix }

unfoldable pub resume : CircuitBreaker → CircuitBreaker
resume cb =
    if cb.halted
    then record cb { halted = false; consecutive_errors = pos 0; last_halted_at = pos 0 }
    else cb

unfoldable pub roll_day_if_needed : Clock → CircuitBreaker → CircuitBreaker
roll_day_if_needed now cb =
    if eq_int cb.day_key now.day
    then cb
    else record cb { day_key = now.day; daily_pnl_cents = pos 0 }

-- A halted breaker recovers if a cooldown is set, the time of the halt is known and it has passed.
unfoldable pub recovers : Clock → CircuitBreaker → Bool
recovers now cb =
    lt_int (pos 0) cb.cooldown_seconds
    && lt_int (pos 0) cb.last_halted_at
    && le_int cb.cooldown_seconds (sub64 now.unix cb.last_halted_at)

unfoldable pub recover : CircuitBreaker → CircuitBreaker
recover cb = record cb { halted = false; consecutive_errors = pos 0 }

-- The daily loss check: the breaker afterwards, and whether trading is allowed.
unfoldable pub check_loss : Clock → CircuitBreaker → CircuitBreaker × Bool
unfolding halt roll_day_if_needed
check_loss now cb =
    if lt_int (pos 0) cb.daily_loss_limit_cents
    then (let rolled = roll_day_if_needed now cb in
        if le_int rolled.daily_pnl_cents (sub64 (pos 0) rolled.daily_loss_limit_cents)
        then (halt now rolled, false)
        else (rolled, true))
    else (cb, true)

unfoldable pub check_errors : Clock → CircuitBreaker → CircuitBreaker × Bool
unfolding halt check_loss
check_errors now cb =
    if lt_int (pos 0) cb.max_consecutive_errors
      && le_int cb.max_consecutive_errors cb.consecutive_errors
    then (halt now cb, false)
    else check_loss now cb

-- `false` is ErrCircuitBreakerOpen.
unfoldable pub allow_trading : Clock → CircuitBreaker → CircuitBreaker × Bool
unfolding recovers recover check_errors
allow_trading now cb =
    if cb.halted
    then if recovers now cb then check_errors now (recover cb) else (cb, false)
    else check_errors now cb

unfoldable pub on_success : CircuitBreaker → CircuitBreaker
on_success cb =
    if lt_int (pos 0) cb.consecutive_errors then record cb { consecutive_errors = pos 0 } else cb

unfoldable pub on_error : CircuitBreaker → CircuitBreaker
on_error cb = record cb { consecutive_errors = add64 cb.consecutive_errors (pos 1) }

unfoldable pub add_pnl_cents : Clock → CircuitBreaker → ℤ → CircuitBreaker
unfolding roll_day_if_needed
add_pnl_cents now cb delta = record rolled { daily_pnl_cents = add64 rolled.daily_pnl_cents delta }
  where
    rolled : CircuitBreaker
    rolled = roll_day_if_needed now cb
