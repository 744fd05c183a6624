-- ===== src/PairLock/Tests.antt =====
-- internal/strategies/velocitypairlock on decimals: a pair of the sequential mode, and the theorems at it.
use upcow.Base.{◌⊎◌, ◌+◌, true, false, List, [], ◌∷◌, Option, none, some, ◌≡◌, ◌≤◌, refl, arith}
use upcow.Base.Int.{pos_part, pos, negsuc, add64, sub64, mul64, ◌+ℤ◌, ◌-ℤ◌}
use upcow.Base.Decimal.{decimal, mul_decimal, div_decimal, of_integer, nearest, whole}
use upcow.Base.Text.{String_discrete}
use upcow.Domain.Price.{Price, to_cents}
use upcow.Domain.Market.{Market, up, down}
use upcow.Domain.Order.{Order, filled, canceled, executed_size}
use upcow.PairLock.Config.{
  Config, defaults, validate, validate_orders, cooldown_duration, bad_stop_loss_order,
}
use upcow.PairLock.Pricer.{
  PairPrices, PriceError, priced, refused, primary_out_of_range, hedge_out_of_range,
  price_pair_lock, validate-price, outside,
}
use upcow.PairLock.Velocity.{
  PricePoint, new_velocity_tracker, add, prune, velocity_cents_per_sec, seconds_f,
}
use upcow.PairLock.Window.{add_all, within, add_all-within}
use upcow.PairLock.State.{
  Env, PairRuntime, hedge_open, merging, new_runtime, buy_order, make_buy_order, price_from_cents,
  clamp_cents, place_hedge, reset_pair, stop_monitor, stop_sweeper, reset_and_cool,
  trigger_auto_merge, merge_reported,
}
use upcow.PairLock.Orders.{
  on_order_update, update_from_primary, update_primary, fill_primary, update_from_hedge,
  update_hedge, fill_hedge, update_legs, after_legs, is_same_primary_order, is_same_hedge_order,
}
use upcow.PairLock.Trigger.{State}
use upcow.PairLock.Placing.{
  place_pair_async, choose_plan, place_sequential, place_parallel, primary_placed, both_placed,
}
use upcow.PairLock.Hedging.{start_hedge, finish_hedge, start_monitor_if_needed}
use upcow.PairLock.StopLoss.{check_stop_loss_once, stop_decision, locked_pnl, note_stop}
use upcow.PairLock.Sweep.{start_sweeper_if_needed, or_true}
use upcow.PairLock.Run.{
  Event, pair_placed, order_updated, hedge_started, hedge_finished, merge_finished, sweeper_asked,
  step, run,
}
use upcow.PairLock.Sound.{IsSound}
use upcow.PairLock.SoundRun.{run-IsSound}
use upcow.PairLock.Safety.{hedges_started, hedges_started-le, canceled_primary_hedged}
use upcow.PairLock.StopLimit.{stops_in, stops_in-le}

abbrev unset : Config
unset = record {
  enabled = true;
  decision_only = false;
  window_seconds = pos 0;
  min_move_cents = pos 0;
  min_velocity_cents_per_sec = pos 0;
  velocity_direction_mode = "";
  primary_pick_mode = "";
  cooldown_ms = pos 0;
  profit_cents = pos 0;
  order_size = pos 0;
  min_entry_price_cents = pos 0;
  max_entry_price_cents = pos 0;
  min_order_usdc = pos 0;
  cycle_end_protection_minutes = pos 0;
  max_trades_per_cycle = pos 0;
  order_execution_mode = "sequential";
  sequential_primary_min_cents = pos 0;
  sequential_primary_max_cents = pos 0;
  sequential_primary_max_wait_ms = pos 0;
  ws_fill_confirm_timeout_seconds = pos 0;
  cancel_if_not_filled_after_confirm = none;
  enforce_order_convergence = none;
  converge_interval_ms = pos 0;
  max_open_orders_in_market = pos 0;
  cancel_confirm_timeout_seconds = pos 0;
  cancel_confirm_poll_interval_ms = pos 0;
  primary_order_style = "";
  hedge_order_style = "";
  taker_offset_cents = pos 0;
  price_stop_enabled = true;
  price_stop_check_interval_ms = pos 0;
  price_stop_soft_loss_cents = pos 0;
  price_stop_hard_loss_cents = pos 0;
  max_acceptable_loss_cents = pos 0;
  auto_merge_enabled = true;
  merge_trigger_delay_seconds = pos 0;
}

abbrev config : Config
config = defaults unset

unfoldable test_code : Unit {0}
unfolding defaults validate validate_orders cooldown_duration price_pair_lock new_velocity_tracker
    add prune within add_all velocity_cents_per_sec seconds_f buy_order make_buy_order
    price_from_cents clamp_cents reset_pair stop_monitor stop_sweeper reset_and_cool
    trigger_auto_merge merge_reported on_order_update update_from_primary update_primary
    fill_primary update_from_hedge update_hedge fill_hedge update_legs after_legs
    is_same_primary_order is_same_hedge_order place_pair_async choose_plan place_sequential
    place_parallel primary_placed both_placed start_hedge finish_hedge start_monitor_if_needed
    check_stop_loss_once start_sweeper_if_needed or_true stop_decision locked_pnl note_stop step run
    hedges_started stops_in to_cents executed_size add64 sub64 mul64 ◌+ℤ◌ ◌-ℤ◌ mul_decimal
    div_decimal of_integer nearest whole String_discrete
test_code = tt

-- The settings left out make a valid configuration.
defaults_are_valid : validate config ≡ none
unfolding test_code
defaults_are_valid = refl

-- A hard loss of one cent that is asked for with the default soft loss of five is refused.
stop_order_refused :
    validate (defaults (record unset { price_stop_hard_loss_cents = negsuc 0 }))
    ≡ some bad_stop_loss_order
unfolding test_code
stop_order_refused = refl

abbrev market : Market
market = record {
  slug = "btc-updown-15m-1767225600";
  yes_asset_id = "yes";
  no_asset_id = "no";
  condition_id = "c";
  question = "";
  timestamp = pos 1767225600;
}

abbrev env : Env
env = record {
  now = 1767225700_000_000_000;
  has_service = true;
  has_executor = true;
  cycle_duration = 900_000_000_000;
}

abbrev first_leg : Order
first_leg = record (buy_order env market up (pos 70) "GTC" (pos 50_000) false) { order_id = "p1" }

abbrev hedge_leg : Order
hedge_leg = record (buy_order env market down (pos 27) "GTC" (pos 50_000) true) { order_id = "h1" }

abbrev start : State
start = record { up_vel = none; down_vel = none; rt = new_runtime }

abbrev placed_as : Order → Event
placed_as o =
    pair_placed up (some market) 0 (some (record { pips = pos 7000 }))
      (some (record { pips = pos 3100 })) (record { has_failed = false; created = some o ∷ [] })

-- A first leg at 70 cents is filled, then its hedge at 27 cents.
abbrev a_pair : List (Env × Event)
a_pair =
    (env, placed_as first_leg)
    ∷ (env, order_updated (some (record first_leg { status = filled; filled_size = pos 50_000 })))
    ∷ (env, hedge_started (some market))
    ∷ (
      env,
      hedge_finished (some market) down (pos 27) (pos 50_000) none
          (record { has_failed = false; created = some hedge_leg ∷ [] }),
    )
    ∷ (env, order_updated (some (record hedge_leg { status = filled; filled_size = pos 50_000 })))
    ∷ []

locks_profit : (run config a_pair start).rt.phase ≡ merging
unfolding test_code
locks_profit = refl

abbrev next_leg : Order
next_leg = record first_leg { order_id = "p2" }

-- The merge reports its refreshed balance, a new pair is placed, the merge reports that it is complete: the
-- new pair's open order is forgotten.
second_report_forgets :
    ((run config
        ((env, merge_finished) ∷ (env, placed_as next_leg) ∷ [])
        (run config a_pair start)).rt.primary_order_id
      ≡ "p2")
    × ((run config
          ((env, merge_finished) ∷ (env, placed_as next_leg) ∷ (env, merge_finished) ∷ [])
          (run config a_pair start)).rt.primary_order_id
        ≡ "")
unfolding test_code
second_report_forgets = (refl, refl)

-- The sweeper runs from the start until the pair is reset, and no step but the one of Run starts it again.
sweeper_stops :
    ((run config ((env, sweeper_asked) ∷ []) start).rt.sweeper_running ≡ true)
    × ((run config
          ((env, merge_finished) ∷ (env, placed_as next_leg) ∷ [])
          (run config a_pair (run config ((env, sweeper_asked) ∷ []) start))).rt.sweeper_running
        ≡ false)
unfolding test_code
sweeper_stops = (refl, refl)

run-IsSound_example : IsSound (run config a_pair start).rt
unfolding test_code
run-IsSound_example = run-IsSound config a_pair start refl

abbrev waiting : PairRuntime
waiting = (run config ((env, placed_as first_leg) ∷ []) start).rt

hedges_started-le_example :
    hedges_started config
      ((env, some (record first_leg { status = filled; filled_size = pos 50_000 }))
        ∷ (env, some (record first_leg { status = filled; filled_size = pos 50_000 }))
        ∷ [])
      waiting
    ≤ 1
hedges_started-le_example =
    hedges_started-le config
      ((env, some (record first_leg { status = filled; filled_size = pos 50_000 }))
        ∷ (env, some (record first_leg { status = filled; filled_size = pos 50_000 }))
        ∷ [])
      waiting

canceled_primary_hedged_example :
    (on_order_update config env (some (record first_leg { status = canceled })) waiting).1
    ≡ place_hedge (some market) down (pos 27) (pos 50_000) ∷ []
unfolding test_code
canceled_primary_hedged_example =
    canceled_primary_hedged config env (record first_leg { status = canceled }) waiting refl refl
      refl refl refl refl refl refl refl

-- The hedge costs 36 cents and then 45: two replacements, the soft and the hard one.
abbrev watched : PairRuntime
watched = record waiting {
  phase = hedge_open;
  hedge_order_id = "h1";
  primary_fill_cents = pos 70;
  primary_filled = true;
}

abbrev ticks : List (Env × Option Price)
ticks =
    (env, some (record { pips = pos 3600 }))
    ∷ (env, some (record { pips = pos 3700 }))
    ∷ (env, some (record { pips = pos 4500 }))
    ∷ (env, some (record { pips = pos 4600 }))
    ∷ []

stops_twice : stops_in config "h1" ticks watched ≡ 2
unfolding test_code
stops_twice = refl

stops_in-le_example : stops_in config "h1" ticks watched ≤ 2
stops_in-le_example = stops_in-le config "h1" ticks watched

validate-price_example :
    ((p : PairPrices) × (price_pair_lock (pos 70) (pos 3) (pos 5) (pos 95) ≡ priced p)
      × (pos_part p.primary_cents + pos_part p.hedge_cents + 3 ≡ 100)
      × (p.primary_cents ≡ pos 70)
      × (outside (pos 5) (pos 95) p.primary_cents ≡ false)
      × (outside (pos 5) (pos 95) p.hedge_cents ≡ false))
    ⊎ ((e : PriceError) × (price_pair_lock (pos 70) (pos 3) (pos 5) (pos 95) ≡ refused e)
        × ((e ≡ primary_out_of_range) ⊎ (e ≡ hedge_out_of_range)))
unfolding test_code
validate-price_example = validate-price config (pos 70) (omega arith) refl refl

abbrev points : List PricePoint
points =
    record { at = 1_000_000_000; cents = pos 50 }
    ∷ record { at = 6_000_000_000; cents = pos 52 }
    ∷ record { at = 12_000_000_000; cents = pos 58 }
    ∷ []

add_all-within_example :
    (add_all points (new_velocity_tracker (pos 10))).points
    ≡ record { at = 6_000_000_000; cents = pos 52 }
      ∷ record { at = 12_000_000_000; cents = pos 58 }
      ∷ []
unfolding test_code
add_all-within_example =
    add_all-within points 12_000_000_000 (new_velocity_tracker (pos 10)) refl
      (omega arith, (omega arith, (omega arith, omega arith)))
