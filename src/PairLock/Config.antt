-- ===== src/PairLock/Config.antt =====
-- velocitypairlock/config.go: the settings, `Defaults` and `Validate`; the part of AutoMergeConfig that the
-- strategy reads itself.
use upcow.Base.{
  ℕ, String, Bool, true, false, not, ◌||◌, ◌*◌, Option, none, some, if◌then◌else◌, ◌≡◌, arith,
}
use upcow.Base.Int.{ℤ, pos, negsuc, lt_int, le_int, eq_int, pos_part}
use upcow.Base.Float.{Float}
use upcow.Domain.Market.{eq_text, is_empty}

-- What `Validate` objects to, by the setting that its text names first.
pub data ConfigError : Type 0 where
  bad_window_seconds bad_min_move_cents bad_min_velocity bad_velocity_direction_mode
        bad_primary_pick_mode bad_cooldown_ms :
      ConfigError
  bad_profit_cents bad_order_size bad_min_entry_price_cents bad_max_entry_price_cents
        bad_entry_prices bad_min_order_usdc :
      ConfigError
  bad_cycle_end_protection bad_max_trades_per_cycle bad_order_execution_mode
        bad_sequential_min_cents :
      ConfigError
  bad_sequential_max_cents bad_sequential_prices bad_sequential_max_wait_ms
        bad_ws_fill_confirm_timeout :
      ConfigError
  bad_converge_interval_ms bad_max_open_orders bad_cancel_confirm_timeout bad_cancel_confirm_poll :
      ConfigError
  bad_primary_order_style bad_hedge_order_style bad_taker_offset_cents
        bad_price_stop_check_interval :
      ConfigError
  bad_stop_loss_cents bad_stop_loss_order bad_max_acceptable_loss : ConfigError

-- `if v <= 0 { v = d }`, `if v < 0 { v = d }`, `if v == "" { v = d }` and `if v == nil { v = &d }`.
abbrev pub if_unset : ℕ → ℤ → ℤ
if_unset d v = if le_int v (pos 0) then pos d else v

abbrev pub if_negative : ℕ → ℤ → ℤ
if_negative d v = if lt_int v (pos 0) then pos d else v

abbrev if_zero : ℤ → ℤ → ℤ
if_zero d v = if eq_int v (pos 0) then d else v

abbrev if_no_text : String → String → String
if_no_text d v = if is_empty v then d else v

abbrev if_nil : Bool → Option Bool → Option Bool
if_nil d none = some d
if_nil d (some b) = some b

-- Whether a setting is not within (0, 100), and whether a text is none of the two, nor empty.
abbrev pub not_cents : ℤ → Bool
not_cents v = le_int v (pos 0) || le_int (pos 100) v

abbrev none_of : String → String → String → Bool
none_of a b v = not (is_empty v || eq_text v a || eq_text v b)

-- The first failing check, or what the rest says.
abbrev check : Bool → ConfigError → Option ConfigError → Option ConfigError
check bad e rest = if bad then some e else rest

module _ ⦃fl : Float⦄ where
  open fl use {F, zero_f, div_f, le_f, of_int}

  pub record Config : Type 0 where
    pub enabled : Bool
    pub decision_only : Bool
    pub window_seconds : ℤ
    pub min_move_cents : ℤ
    pub min_velocity_cents_per_sec : F
    pub velocity_direction_mode : String
    pub primary_pick_mode : String
    pub cooldown_ms : ℤ
    pub profit_cents : ℤ
    pub order_size : F
    pub min_entry_price_cents : ℤ
    pub max_entry_price_cents : ℤ
    pub min_order_usdc : F
    pub cycle_end_protection_minutes : ℤ
    pub max_trades_per_cycle : ℤ
    pub order_execution_mode : String
    pub sequential_primary_min_cents : ℤ
    pub sequential_primary_max_cents : ℤ
    pub sequential_primary_max_wait_ms : ℤ
    pub ws_fill_confirm_timeout_seconds : ℤ
    pub cancel_if_not_filled_after_confirm : Option Bool
    pub enforce_order_convergence : Option Bool
    pub converge_interval_ms : ℤ
    pub max_open_orders_in_market : ℤ
    pub cancel_confirm_timeout_seconds : ℤ
    pub cancel_confirm_poll_interval_ms : ℤ
    pub primary_order_style : String
    pub hedge_order_style : String
    pub taker_offset_cents : ℤ
    pub price_stop_enabled : Bool
    pub price_stop_check_interval_ms : ℤ
    pub price_stop_soft_loss_cents : ℤ
    pub price_stop_hard_loss_cents : ℤ
    pub max_acceptable_loss_cents : ℤ
    pub auto_merge_enabled : Bool
    pub merge_trigger_delay_seconds : ℤ

  abbrev fraction : ℕ → ℕ → F
  fraction a b = div_f (of_int (pos a)) (of_int (pos b))

  abbrev if_unset_float : F → F → F
  if_unset_float d v = if le_f v zero_f then d else v

  unfoldable pub defaults : Config → Config
  defaults c = record c {
    window_seconds = if_unset 10 c.window_seconds;
    min_move_cents = if_unset 3 c.min_move_cents;
    min_velocity_cents_per_sec = if_unset_float (fraction 3 10) c.min_velocity_cents_per_sec;
    velocity_direction_mode = if_no_text "positive" c.velocity_direction_mode;
    primary_pick_mode = if_no_text "max_velocity" c.primary_pick_mode;
    cooldown_ms = if_unset 3000 c.cooldown_ms;
    profit_cents = if_unset 3 c.profit_cents;
    order_size = if_unset_float (of_int (pos 5)) c.order_size;
    min_entry_price_cents = if_unset 5 c.min_entry_price_cents;
    max_entry_price_cents = if_unset 95 c.max_entry_price_cents;
    min_order_usdc = if_unset_float (fraction 101 100) c.min_order_usdc;
    cycle_end_protection_minutes = if_negative 1 c.cycle_end_protection_minutes;
    max_trades_per_cycle = if_negative 0 c.max_trades_per_cycle;
    order_execution_mode = if_no_text "parallel" c.order_execution_mode;
    sequential_primary_min_cents = if_unset 5 c.sequential_primary_min_cents;
    sequential_primary_max_cents = if_unset 95 c.sequential_primary_max_cents;
    sequential_primary_max_wait_ms = if_unset 7000 c.sequential_primary_max_wait_ms;
    ws_fill_confirm_timeout_seconds = if_unset 5 c.ws_fill_confirm_timeout_seconds;
    cancel_if_not_filled_after_confirm = if_nil true c.cancel_if_not_filled_after_confirm;
    enforce_order_convergence = if_nil true c.enforce_order_convergence;
    converge_interval_ms = if_unset 2000 c.converge_interval_ms;
    max_open_orders_in_market = if_unset 2 c.max_open_orders_in_market;
    cancel_confirm_timeout_seconds = if_unset 6 c.cancel_confirm_timeout_seconds;
    cancel_confirm_poll_interval_ms = if_unset 500 c.cancel_confirm_poll_interval_ms;
    primary_order_style = if_no_text "limit" c.primary_order_style;
    hedge_order_style = if_no_text "limit" c.hedge_order_style;
    taker_offset_cents = if_negative 0 c.taker_offset_cents;
    price_stop_check_interval_ms = if_unset 200 c.price_stop_check_interval_ms;
    price_stop_soft_loss_cents = if_zero (negsuc 4) c.price_stop_soft_loss_cents;
    price_stop_hard_loss_cents = if_zero (negsuc 9) c.price_stop_hard_loss_cents;
    max_acceptable_loss_cents = if_unset 20 c.max_acceptable_loss_cents;
    merge_trigger_delay_seconds = if_unset 15 c.merge_trigger_delay_seconds;
  }

  abbrev check_stop : Config → Option ConfigError
  check_stop c =
      if c.price_stop_enabled
      then check
          (le_int (pos 0) c.price_stop_soft_loss_cents
            || le_int (pos 0) c.price_stop_hard_loss_cents)
          bad_stop_loss_cents
          (check (le_int c.price_stop_soft_loss_cents c.price_stop_hard_loss_cents)
            bad_stop_loss_order
            (check (le_int c.max_acceptable_loss_cents (pos 0)) bad_max_acceptable_loss none))
      else none

  -- The checks on orders and their timing, from `orderExecutionMode` on.
  unfoldable pub validate_orders : Config → Option ConfigError
  validate_orders c =
      check (none_of "parallel" "sequential" c.order_execution_mode) bad_order_execution_mode (
        check (not_cents c.sequential_primary_min_cents) bad_sequential_min_cents (
          check (not_cents c.sequential_primary_max_cents) bad_sequential_max_cents (
            check (lt_int c.sequential_primary_max_cents c.sequential_primary_min_cents)
              bad_sequential_prices
              (check (lt_int c.sequential_primary_max_wait_ms (pos 0)) bad_sequential_max_wait_ms (
                check (lt_int c.ws_fill_confirm_timeout_seconds (pos 0)) bad_ws_fill_confirm_timeout
                  (check (lt_int c.converge_interval_ms (pos 0)) bad_converge_interval_ms (
                    check (lt_int c.max_open_orders_in_market (pos 0)) bad_max_open_orders (
                      check (lt_int c.cancel_confirm_timeout_seconds (pos 0))
                        bad_cancel_confirm_timeout
                        (check (lt_int c.cancel_confirm_poll_interval_ms (pos 0))
                          bad_cancel_confirm_poll
                          (check (none_of "limit" "taker" c.primary_order_style)
                            bad_primary_order_style
                            (check (none_of "limit" "taker" c.hedge_order_style)
                              bad_hedge_order_style
                              (check (lt_int c.taker_offset_cents (pos 0)) bad_taker_offset_cents (
                                check (lt_int c.price_stop_check_interval_ms (pos 0))
                                  bad_price_stop_check_interval (check_stop c))))))))))))))

  -- `none` is no error.
  unfoldable pub validate : Config → Option ConfigError
  unfolding validate_orders
  validate c =
      if c.enabled
      then check (le_int c.window_seconds (pos 0)) bad_window_seconds (
          check (lt_int c.min_move_cents (pos 0)) bad_min_move_cents (
            check (le_f c.min_velocity_cents_per_sec zero_f) bad_min_velocity (
              check (none_of "positive" "abs" c.velocity_direction_mode) bad_velocity_direction_mode
                (check (none_of "max_velocity" "max_velocity" c.primary_pick_mode)
                  bad_primary_pick_mode
                  (check (lt_int c.cooldown_ms (pos 0)) bad_cooldown_ms (
                    check (not_cents c.profit_cents) bad_profit_cents (
                      check (le_f c.order_size zero_f) bad_order_size (
                        check (not_cents c.min_entry_price_cents) bad_min_entry_price_cents (
                          check (not_cents c.max_entry_price_cents) bad_max_entry_price_cents (
                            check (lt_int c.max_entry_price_cents c.min_entry_price_cents)
                              bad_entry_prices
                              (check (le_f c.min_order_usdc zero_f) bad_min_order_usdc (
                                check (lt_int c.cycle_end_protection_minutes (pos 0))
                                  bad_cycle_end_protection
                                  (check (lt_int c.max_trades_per_cycle (pos 0))
                                    bad_max_trades_per_cycle (validate_orders c))))))))))))))
      else none

  unfoldable pub cooldown_duration : Config → ℕ
  cooldown_duration c = pos_part c.cooldown_ms * 1_000_000

  -- What a setting that passes says of the prices.
  pub validate-cents :
      (c : Config)
      → c.enabled ≡ true
      → validate c ≡ none
      → (not_cents c.profit_cents ≡ false)
        × (not_cents c.min_entry_price_cents ≡ false)
        × (not_cents c.max_entry_price_cents ≡ false)
        × (lt_int c.max_entry_price_cents c.min_entry_price_cents ≡ false)
  unfolding validate
  validate-cents c on ok = ground arith
