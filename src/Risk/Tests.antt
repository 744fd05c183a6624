-- ===== src/Risk/Tests.antt =====
-- internal/risk/circuit_breaker.go at concrete breakers.
use upcow.Base.{not, true, false, ◌≡◌, refl, [], ◌∷◌, arith}
use upcow.Base.Int.{pos, negsuc, sub64, add64}
use upcow.Risk.{
  CircuitBreakerConfig, CircuitBreaker, Clock, new_circuit_breaker, roll_day_if_needed, recover,
  allow_trading, on_error, on_success, resume, add_pnl_cents, halt, check_errors, check_loss,
}
use upcow.Risk.Laws.{
  allow_trading-fail, allow_trading_in_cooldown, allow_trading_after_cooldown, allow_trading-losses,
  allow_trading-halted, allow_trading_twice, fail, losses, add_all,
}

abbrev now : Clock
now = record { unix = pos 1_000_000; day = pos 20260101 }

abbrev config : CircuitBreakerConfig
config = record {
  max_consecutive_errors = pos 3;
  daily_loss_limit_cents = pos 0;
  cooldown_seconds = pos 60;
}

abbrev fresh : CircuitBreaker
fresh = new_circuit_breaker config

-- It is halted since ten seconds.
abbrev halted : CircuitBreaker
halted = record fresh { halted = true; last_halted_at = pos 999_990; consecutive_errors = pos 9 }

abbrev limited : CircuitBreaker
limited = record fresh { daily_loss_limit_cents = pos 500 }

allow_trading-halted_example :
    (allow_trading now halted).0.halted ≡ not (allow_trading now halted).1
allow_trading-halted_example = allow_trading-halted now halted

allow_trading_twice_example :
    allow_trading now (allow_trading now halted).0 ≡ allow_trading now halted
allow_trading_twice_example = allow_trading_twice now halted

allow_trading-fail_example : (allow_trading now (fail 3 fresh)).1 ≡ false
unfolding new_circuit_breaker
allow_trading-fail_example =
    allow_trading-fail now 3 3 fresh (omega arith) (omega arith) refl refl refl refl

allow_trading_in_cooldown_example : allow_trading now halted ≡ (halted, false)
unfolding new_circuit_breaker
allow_trading_in_cooldown_example =
    allow_trading_in_cooldown now halted 60 999_990 1_000_000 refl refl refl refl (omega arith)
      (omega arith) (omega arith)

abbrev later : Clock
later = record { unix = pos 1_000_050; day = pos 20260101 }

allow_trading_after_cooldown_example : allow_trading later halted ≡ (recover halted, true)
unfolding new_circuit_breaker
allow_trading_after_cooldown_example =
    allow_trading_after_cooldown later halted 60 999_990 1_000_050 refl refl refl refl (omega arith)
      (omega arith) (omega arith) (omega arith) refl

allow_trading-losses_example :
    (allow_trading now (add_all now (losses (200 ∷ 300 ∷ [])) limited)).1 ≡ false
unfolding new_circuit_breaker
allow_trading-losses_example =
    allow_trading-losses now limited (200 ∷ 300 ∷ []) 500 3 refl refl refl refl refl (omega arith)
      (omega arith) (omega arith)

-- A success between the failures starts the count again.
success_between : (allow_trading now (on_error (on_success (fail 2 fresh)))).1 ≡ true
unfolding new_circuit_breaker on_error on_success allow_trading check_errors check_loss add64
success_between = refl

-- Resuming by hand does not forget the day's loss: the next request halts again.
resume_keeps_loss :
    (allow_trading now (resume (halt now (add_pnl_cents now limited (negsuc 599))))).1 ≡ false
unfolding new_circuit_breaker resume halt add_pnl_cents roll_day_if_needed allow_trading
    check_errors check_loss add64 sub64
resume_keeps_loss = refl
