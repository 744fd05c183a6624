-- ===== src/PairLock/StopLoss.antt =====
-- velocitypairlock/strategy.go: checkStopLossOnce and executeStopLoss, which replaces a hedge that is not filled
-- by a dearer one. The quote and the answers are arguments.
use upcow.Base.{
  String, Bool, true, false, not, ◌&&◌, ◌||◌, [], ◌∷◌, Option, none, some, if◌then◌else◌, ◌==◌, ℕ,
}
use upcow.Base.Int.{ℤ, pos, add64, sub64, lt_int, le_int}
use upcow.Base.Float.{Float}
use upcow.Domain.Price.{Price, to_cents}
use upcow.Domain.Market.{Market, TokenType, eq_text, is_empty}
use upcow.Domain.Order.{Order}
use upcow.PairLock.Config.{Config}
use upcow.PairLock.State.{
  PairRuntime, Env, StopLevel, stop_none, stop_soft, stop_hard, both_filled, hedge_open, eq_phase,
  stop_loss, trigger_risk_off, submit_orders, stop_monitor, trigger_auto_merge, clamp_cents,
  buy_order,
}
use upcow.PairLock.Orders.{Handled}
use upcow.PairLock.Placing.{Answer, created_id}

abbrev pub level_code : StopLevel → ℕ
level_code stop_none = 0
level_code stop_soft = 1
level_code stop_hard = 2

abbrev pub eq_level : StopLevel → StopLevel → Bool
eq_level a b = level_code a == level_code b

-- What a check decides.
pub data StopAction : Type 0 where
  no_stop risk_off : StopAction
  stop_at : StopLevel → ℤ → String → StopAction

module _ ⦃fl : Float⦄ where
  open fl use {F, zero_f, le_f}

  abbrev pub is_open_hedge : String → PairRuntime → Bool
  is_open_hedge id rt = eq_phase rt.phase hedge_open && eq_text rt.hedge_order_id id

  -- The profit or loss in cents if the hedge is bought at `ask` now.
  unfoldable pub locked_pnl : ℤ → ℤ → ℤ
  locked_pnl fill ask = sub64 (pos 100) (add64 fill ask)

  -- The decision at a quote, in cents.
  unfoldable pub stop_decision : Config → StopLevel → ℤ → ℤ → StopAction
  unfolding locked_pnl
  stop_decision c level fill ask =
      if le_int (pos 0) (locked_pnl fill ask)
      then no_stop
      else if lt_int c.max_acceptable_loss_cents (sub64 (pos 0) (locked_pnl fill ask))
      then risk_off
      else if le_int (locked_pnl fill ask) c.price_stop_hard_loss_cents
          && not (eq_level level stop_hard)
      then stop_at stop_hard (add64 ask c.taker_offset_cents) "FAK"
      else if le_int (locked_pnl fill ask) c.price_stop_soft_loss_cents && eq_level level stop_none
      then if eq_text c.hedge_order_style "taker"
        then stop_at stop_soft (add64 ask c.taker_offset_cents) "FAK"
        else stop_at stop_soft ask "GTC"
      else no_stop

  -- The level is noted under a second lock.
  unfoldable pub note_stop : String → StopLevel → PairRuntime → PairRuntime
  note_stop id level rt = if is_open_hedge id rt then record rt { stop_level = level } else rt

  abbrev pub act_on : String → Market → PairRuntime → StopAction → Handled
  act_on id m rt no_stop = (rt, [])
  act_on id m rt risk_off = (rt, trigger_risk_off ∷ [])
  act_on id m rt (stop_at level cents order_type) =
      (note_stop id level rt, stop_loss id rt.hedge_token m cents order_type ∷ [])

  abbrev pub check_at : Config → String → Option Market → Option Price → PairRuntime → Handled
  check_at c id none ask rt = (rt, [])
  check_at c id (some m) none rt = (rt, [])
  check_at c id (some m) (some p) rt =
      if le_int rt.primary_fill_cents (pos 0)
      then (rt, [])
      else act_on id m rt (stop_decision c rt.stop_level rt.primary_fill_cents (to_cents p))

  -- One tick of the monitor, where nothing comes between its two locks. A failed quote is `none`.
  unfoldable pub check_stop_loss_once : Config → Env → String → Option Price → PairRuntime → Handled
  unfolding stop_decision note_stop to_cents
  check_stop_loss_once c env id ask rt =
      if not env.has_service || not (is_open_hedge id rt) || rt.hedge_filled
      then (rt, [])
      else check_at c id rt.market ask rt

  -- The cancel found that the hedge was filled.
  unfoldable pub stop_found_filled : Config → Env → String → PairRuntime → Handled
  unfolding stop_monitor trigger_auto_merge
  stop_found_filled c env id rt =
      if is_open_hedge id rt
      then trigger_auto_merge c env
          (stop_monitor (record rt { hedge_filled = true; phase = both_filled }))
      else (rt, [])

  abbrev stop_size : Config → PairRuntime → F
  stop_size c rt = if le_f rt.primary_fill_size zero_f then c.order_size else rt.primary_fill_size

  -- The order that replaces the hedge; `none` where it is not open any more.
  unfoldable pub stop_order :
      Config → Env → String → TokenType → Market → ℤ → String → PairRuntime → Option Order
  unfolding clamp_cents buy_order
  stop_order c env id token m cents order_type rt =
      if is_open_hedge id rt && not rt.hedge_filled
      then some (
          buy_order env m token (clamp_cents cents (pos 1) (pos 99)) order_type (stop_size c rt)
            true)
      else none

  -- The new order is at the exchange.
  unfoldable pub replace_hedge : String → Answer → PairRuntime → PairRuntime
  replace_hedge id a rt =
      if not (is_empty (created_id a)) && is_open_hedge id rt
      then record rt { hedge_order_id = created_id a; hedge_filled = false }
      else rt

  abbrev replace_if : String → Answer → PairRuntime → Option Order → Handled
  replace_if id a rt none = (rt, [])
  replace_if id a rt (some o) = (replace_hedge id a rt, submit_orders (o ∷ []) ∷ [])

  -- The whole of it, where nothing comes between. `found` says that the cancel found the hedge filled.
  unfoldable pub execute_stop_loss :
      Config
      → Env
      → String
      → TokenType
      → Option Market
      → ℤ
      → String
      → Bool
      → Answer
      → PairRuntime
      → Handled
  unfolding stop_found_filled stop_order replace_hedge
  execute_stop_loss c env id token none cents order_type found a rt = (rt, [])
  execute_stop_loss c env id token (some m) cents order_type found a rt =
      if not env.has_service || not env.has_executor || c.decision_only
      then (rt, [])
      else if found
      then stop_found_filled c env id rt
      else replace_if id a rt (stop_order c env id token m cents order_type rt)
