-- ===== src/PairLock/Hedging.antt =====
-- velocitypairlock/strategy.go: placeHedgeAfterPrimaryFilled, the start of the monitor, OnCycle and the hard
-- timeout of the first leg. Each goroutine is split where it gives up the lock to wait.
use upcow.Base.{
  String, Bool, true, false, not, ◌&&◌, ◌||◌, ◌+◌, List, [], ◌∷◌, Option, none, some, is_some,
  if◌then◌else◌,
}
use upcow.Base.Int.{ℤ, pos}
use upcow.Base.Float.{Float}
use upcow.Domain.Price.{Price, to_cents}
use upcow.Domain.Market.{Market, TokenType, eq_text, is_empty}
use upcow.Domain.Order.{Order}
use upcow.PairLock.Config.{Config}
use upcow.PairLock.Velocity.{VelocityTracker, reset}
use upcow.PairLock.State.{
  PairRuntime, Env, Effect, placing, primary_open, hedge_open, eq_phase, monitor_if_needed,
  monitor_loop, merge_previous, submit_orders, stop_monitor, stop_sweeper, reset_pair,
  reset_and_cool, make_buy_order,
}
use upcow.PairLock.Orders.{Handled}
use upcow.PairLock.Trigger.{State}
use upcow.PairLock.Placing.{Answer, created_id, price_or_zero}

module _ ⦃fl : Float⦄ where
  open fl use {F}

  -- The checks under the first lock. `none` goes on to place.
  unfoldable pub start_hedge : Config → Env → Option Market → PairRuntime → Option PairRuntime
  unfolding reset_and_cool
  start_hedge c env m rt =
      if not (is_some m) || not env.has_service || not env.has_executor
      then some (reset_and_cool c env rt)
      else if (not (eq_phase rt.phase placing) && not (eq_phase rt.phase primary_open))
          || not (is_empty rt.hedge_order_id)
          || not rt.primary_filled
      then some rt
      else none

  -- The hedge's order; `none` where its quote fails or it cannot be made. A limit order needs no quote.
  abbrev pub hedge_order :
      Config → Env → Option Market → TokenType → ℤ → F → Option Price → Option Order
  hedge_order c env m token cents size ask =
      if eq_text c.hedge_order_style "taker" && not (is_some ask)
      then none
      else make_buy_order c env m token cents (price_or_zero ask) c.hedge_order_style size true

  abbrev pub hedge_submitted : Config → Env → Answer → PairRuntime → Option Order → Handled
  hedge_submitted c env a rt none = (reset_and_cool c env rt, [])
  hedge_submitted c env a rt (some o) =
      if c.decision_only
      then (reset_and_cool c env rt, [])
      else if is_empty (created_id a)
      then (reset_and_cool c env rt, submit_orders (o ∷ []) ∷ [])
      else (
        record rt { hedge_order_id = created_id a; hedge_filled = false; phase = hedge_open },
        submit_orders (o ∷ []) ∷ (if c.price_stop_enabled then monitor_if_needed ∷ [] else []),
      )

  -- What follows, on the state that is found after the wait for the executor.
  unfoldable pub finish_hedge :
      Config
      → Env
      → Option Market
      → TokenType
      → ℤ
      → F
      → Option Price
      → Answer
      → PairRuntime
      → Handled
  unfolding make_buy_order reset_and_cool to_cents
  finish_hedge c env m token cents size ask a rt =
      hedge_submitted c env a rt (hedge_order c env m token cents size ask)

  -- The whole goroutine, where nothing comes between.
  unfoldable pub place_hedge_after_primary_filled :
      Config
      → Env
      → Option Market
      → TokenType
      → ℤ
      → F
      → Option Price
      → Answer
      → PairRuntime
      → Handled
  unfolding start_hedge finish_hedge
  place_hedge_after_primary_filled c env m token cents size ask a rt =
      elim (start_hedge c env m rt) [
        | none ↦ finish_hedge c env m token cents size ask a rt
        | some rt' ↦ (rt', [])
      ]

  unfoldable pub start_monitor_if_needed : PairRuntime → Handled
  start_monitor_if_needed rt =
      if rt.monitor_running || not (eq_phase rt.phase hedge_open) || is_empty rt.hedge_order_id
      then (rt, [])
      else (record rt { monitor_running = true }, monitor_loop rt.hedge_order_id ∷ [])

  abbrev reset_tracker : Option VelocityTracker → Option VelocityTracker
  reset_tracker none = none
  reset_tracker (some t) = some (reset t)

  abbrev merge_old : Config → Env → Option Market → List Effect
  merge_old c env none = []
  merge_old c env (some m) =
      if c.auto_merge_enabled && env.has_service then merge_previous m ∷ [] else []

  unfoldable pub on_cycle :
      Config → Env → Option Market → Option Market → State → State × List Effect
  unfolding reset stop_monitor stop_sweeper reset_pair
  on_cycle c env old_market new_market s = (
    record {
      up_vel = reset_tracker s.up_vel;
      down_vel = reset_tracker s.down_vel;
      rt =
          record (reset_pair (record (stop_sweeper (stop_monitor s.rt)) {
            market = new_market;
            trades_this_cycle = pos 0;
          })) { cooldown_until = some (env.now + 800_000_000) };
    },
    merge_old c env old_market,
  )

  abbrev waits_for : String → PairRuntime → Bool
  waits_for id rt =
      eq_phase rt.phase primary_open && eq_text rt.primary_order_id id && not rt.primary_filled

  -- The timer of the first leg: whether it cancels, and what follows the cancel.
  unfoldable pub times_out : String → PairRuntime → Bool
  times_out id rt = waits_for id rt

  unfoldable pub primary_timed_out : Config → Env → String → PairRuntime → PairRuntime
  unfolding reset_and_cool
  primary_timed_out c env id rt = if waits_for id rt then reset_and_cool c env rt else rt
