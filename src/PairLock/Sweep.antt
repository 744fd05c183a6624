-- ===== src/PairLock/Sweep.antt =====
-- velocitypairlock/strategy.go: the confirmation of open orders by the API, the cancel that waits for its
-- confirmation, the sweeper, and the check of positions behind it. What the trading service answers is an argument.
use upcow.Base.{
  ℕ, String, Bool, true, false, not, ◌&&◌, ◌||◌, ◌+◌, ◌*◌, List, [], ◌∷◌, Option, none, some,
  if◌then◌else◌,
}
use upcow.Base.Int.{pos, pos_part}
use upcow.Base.Float.{Float}
use upcow.Domain.Market.{Market, TokenType, no_token, up, down, eq_text, is_empty}
use upcow.Domain.Order.{Order, OrderStatus, Time}
use upcow.Domain.Position.{Position, is_open}
use upcow.PairLock.Config.{Config}
use upcow.PairLock.State.{
  PairRuntime, Env, both_open, primary_open, hedge_open, both_filled, eq_phase, stop_monitor,
  reset_and_cool, trigger_auto_merge,
}
use upcow.PairLock.Orders.{Handled}

unfoldable pub or_true : Option Bool → Bool
or_true none = true
or_true (some b) = b

module _ ⦃fl : Float⦄ where
  open fl use {F, zero_f, lt_f, le_f, add_f, sub_f, div_f, of_int}

  unfoldable pub ws_confirm_wait : Config → Time
  ws_confirm_wait c = pos_part c.ws_fill_confirm_timeout_seconds * 1_000_000_000

  pub record CancelOrderResult : Type 0 where
    pub canceled : Bool
    pub filled : Bool

  abbrev no_result : CancelOrderResult
  no_result = record { canceled = false; filled = false }

  abbrev result_of : OrderStatus → CancelOrderResult
  result_of OrderStatus.filled = record { canceled = false; filled = true }
  result_of OrderStatus.canceled = record { canceled = true; filled = false }
  result_of OrderStatus.failed = record { canceled = true; filled = false }
  result_of OrderStatus.no_status = no_result
  result_of OrderStatus.pending = no_result
  result_of OrderStatus.opened = no_result
  result_of OrderStatus.partial = no_result
  result_of OrderStatus.canceling = no_result
  result_of (OrderStatus.other_status s) = no_result

  abbrev answer_of : Option OrderStatus → CancelOrderResult
  answer_of none = no_result
  answer_of (some s) = result_of s

  abbrev is_over : CancelOrderResult → Bool
  is_over r = r.canceled || r.filled

  -- The polls until the deadline, each with the status that it finds, and the last look after it.
  abbrev poll : List (Option OrderStatus) → Option OrderStatus → CancelOrderResult
  poll [] last = answer_of last
  poll (s ∷ ss) last =
      let rest = poll ss last in if is_over (answer_of s) then answer_of s else rest

  unfoldable pub cancel_order_and_confirm_closed :
      Config → Env → String → List (Option OrderStatus) → Option OrderStatus → CancelOrderResult
  cancel_order_and_confirm_closed c env id polls last =
      if not env.has_service || is_empty id || c.decision_only then no_result else poll polls last

  abbrev in_market : Order → Market → Bool
  in_market o m =
      (not (is_empty o.asset_id)
        && (eq_text o.asset_id m.yes_asset_id || eq_text o.asset_id m.no_asset_id))
      || (not (is_empty o.market_slug) && eq_text o.market_slug m.slug)

  unfoldable pub is_order_in_current_market : Option Order → Option Market → Bool
  is_order_in_current_market none m = false
  is_order_in_current_market (some o) none = false
  is_order_in_current_market (some o) (some m) = in_market o m

  abbrev count_in : List (Option Order) → Option Market → ℕ
  count_in [] m = 0
  count_in (o ∷ os) m = (if is_order_in_current_market o m then 1 else 0) + count_in os m

  -- `active` are the orders that the service has as active.
  unfoldable pub count_open_orders_in_market : Env → List (Option Order) → Option Market → ℕ
  unfolding is_order_in_current_market
  count_open_orders_in_market env active m = if env.has_service then count_in active m else 0

  unfoldable pub is_allowed : PairRuntime → String → Bool
  is_allowed rt id =
      (not (is_empty rt.up_order_id) && eq_text id rt.up_order_id)
      || (not (is_empty rt.down_order_id) && eq_text id rt.down_order_id)
      || (not (is_empty rt.primary_order_id) && eq_text id rt.primary_order_id)
      || (not (is_empty rt.hedge_order_id) && eq_text id rt.hedge_order_id)

  abbrev is_stray : PairRuntime → Order → Bool
  is_stray rt o =
      not (is_empty o.order_id)
      && is_order_in_current_market (some o) rt.market
      && not (is_allowed rt o.order_id)

  abbrev strays : PairRuntime → List (Option Order) → List String
  strays rt [] = []
  strays rt (none ∷ os) = strays rt os
  strays rt (some o ∷ os) =
      let rest = strays rt os in if is_stray rt o then o.order_id ∷ rest else rest

  -- The orders that a sweep cancels, by the state at its start.
  unfoldable pub sweep_once : Config → Env → List (Option Order) → PairRuntime → List String
  unfolding is_order_in_current_market is_allowed or_true
  sweep_once c env active rt =
      if not (or_true c.enforce_order_convergence) || not env.has_service || c.decision_only
      then []
      else strays rt active

  unfoldable pub start_sweeper_if_needed : Config → PairRuntime → PairRuntime
  unfolding or_true
  start_sweeper_if_needed c rt =
      if or_true c.enforce_order_convergence then record rt { sweeper_running = true } else rt

  -- Whether the first leg, or both legs, still wait for a fill: the check under each lock of the confirmations.
  unfoldable pub primary_waits : String → PairRuntime → Bool
  primary_waits id rt =
      eq_phase rt.phase primary_open && eq_text rt.primary_order_id id && not rt.primary_filled

  unfoldable pub both_wait : String → String → PairRuntime → Bool
  both_wait up_id down_id rt =
      eq_phase rt.phase both_open
      && eq_text rt.up_order_id up_id
      && eq_text rt.down_order_id down_id
      && not rt.up_filled
      && not rt.down_filled

  -- Whether the confirmation goes on to cancel, by what its second lock finds.
  unfoldable pub cancels_unconfirmed : Config → Bool → Bool
  unfolding or_true
  cancels_unconfirmed c still_waits = still_waits && or_true c.cancel_if_not_filled_after_confirm

  -- The last lock of each, after the cancels.
  unfoldable pub primary_unconfirmed : Config → Env → String → PairRuntime → PairRuntime
  unfolding primary_waits reset_and_cool
  primary_unconfirmed c env id rt = if primary_waits id rt then reset_and_cool c env rt else rt

  unfoldable pub both_unconfirmed : Config → Env → String → String → PairRuntime → PairRuntime
  unfolding both_wait reset_and_cool
  both_unconfirmed c env up_id down_id rt =
      if both_wait up_id down_id rt then reset_and_cool c env rt else rt

  -- The sizes of the open positions of each token; `none` is a nil position.
  abbrev add_size : Position → TokenType → F × F → F × F
  add_size p up (u, d) = (add_f u p.size, d)
  add_size p down (u, d) = (u, add_f d p.size)
  add_size p no_token sizes = sizes

  unfoldable pub open_sizes : List (Option Position) → F × F → F × F
  unfolding is_open
  open_sizes [] sizes = sizes
  open_sizes (none ∷ ps) sizes = open_sizes ps sizes
  open_sizes (some p ∷ ps) sizes =
      open_sizes ps
        (if is_open p && not (le_f p.size zero_f) then add_size p p.token_type sizes else sizes)

  -- The open sizes of both tokens differ by a fifth of the larger at most.
  abbrev fifth : F
  fifth = div_f (of_int (pos 2)) (of_int (pos 10))

  abbrev near : F → F → Bool
  near small large = le_f (div_f (sub_f large small) large) fifth

  unfoldable pub sizes_match : F → F → Bool
  sizes_match u d = lt_f zero_f u && lt_f zero_f d && (if lt_f u d then near u d else near d u)

  -- Both positions are there: the pair is taken for filled. `u` and `d` are the sizes of the open positions.
  unfoldable pub positions_found : Config → Env → F → F → PairRuntime → Handled
  unfolding sizes_match trigger_auto_merge stop_monitor
  positions_found c env u d rt =
      if not env.has_service || not c.auto_merge_enabled || not (sizes_match u d)
      then (rt, [])
      else if (eq_phase rt.phase hedge_open || eq_phase rt.phase primary_open)
          && not rt.primary_filled
          && not rt.hedge_filled
      then trigger_auto_merge c env (
          stop_monitor
            (record rt { primary_filled = true; hedge_filled = true; phase = both_filled }))
      else (rt, [])

  unfoldable pub both_positions_found : Config → Env → F → F → PairRuntime → Handled
  unfolding sizes_match trigger_auto_merge stop_monitor
  both_positions_found c env u d rt =
      if not env.has_service || not c.auto_merge_enabled || not (sizes_match u d)
      then (rt, [])
      else if eq_phase rt.phase both_open && not rt.up_filled && not rt.down_filled
      then trigger_auto_merge c env
          (stop_monitor (record rt { up_filled = true; down_filled = true; phase = both_filled }))
      else (rt, [])
