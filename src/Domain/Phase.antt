-- ===== src/Domain/Phase.antt =====
-- internal/domain/position.go: ArbitragePositionState and the phase of a cycle that a time lies in. The clock is an
-- argument, in seconds.
use upcow.Base.{if◌then◌else◌}
use upcow.Base.Int.{ℤ, pos, lt_int, sub64}
use upcow.Base.Float.{Float}
use upcow.Domain.Market.{Market}

pub data Phase : Type 0 where
  phase_build phase_adjust phase_lock : Phase

module _ ⦃fl : Float⦄ where
  open fl use {F, zero_f, sub_f, mul_f, div_f, lt_f, of_int}

  pub record ArbitragePositionState : Type 0 where
    pub q_up : F
    pub q_down : F
    pub c_up : F
    pub c_down : F
    pub market : Market
    pub cycle_start_time : ℤ

  unfoldable pub profit_if_up_win : ArbitragePositionState → F
  profit_if_up_win s = sub_f (sub_f (mul_f s.q_up (of_int (pos 1))) s.c_up) s.c_down

  unfoldable pub profit_if_down_win : ArbitragePositionState → F
  profit_if_down_win s = sub_f (sub_f (mul_f s.q_down (of_int (pos 1))) s.c_up) s.c_down

  unfoldable pub get_elapsed_time_at : ArbitragePositionState → ℤ → ℤ
  get_elapsed_time_at s now =
      if lt_int (sub64 now s.cycle_start_time) (pos 0) then pos 0 else sub64 now s.cycle_start_time

  unfoldable pub detect_phase_at : ArbitragePositionState → ℤ → ℤ → ℤ → Phase
  unfolding get_elapsed_time_at
  detect_phase_at s now cycle_duration lock_start =
      if lt_f (div_f (of_int elapsed) (of_int cycle_duration))
        (div_f (of_int (pos 1)) (of_int (pos 3)))
      then phase_build
      else if lt_int elapsed lock_start
      then phase_adjust
      else phase_lock
    where
      elapsed : ℤ
      elapsed = get_elapsed_time_at s now

  unfoldable pub new_arbitrage_position_state : Market → ArbitragePositionState
  new_arbitrage_position_state m = record {
    q_up = zero_f;
    q_down = zero_f;
    c_up = zero_f;
    c_down = zero_f;
    market = m;
    cycle_start_time = m.timestamp;
  }
