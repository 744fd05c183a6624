-- ===== src/PairLock/Run.antt =====
-- velocitypairlock/strategy.go as a whole: every section that runs under the strategy's lock is a step, and the
-- steps of the callbacks and goroutines come in any order, each with any arguments.
use upcow.Base.{ℕ, String, List, [], ◌∷◌, Option, none, some}
use upcow.Base.Int.{ℤ}
use upcow.Base.Float.{Float}
use upcow.Domain.Price.{Price}
use upcow.Domain.Market.{Market, TokenType}
use upcow.Domain.Order.{Order}
use upcow.PairLock.Config.{Config}
use upcow.PairLock.State.{PairRuntime, Env, Effect, StopLevel, merge_reported}
use upcow.PairLock.Orders.{Handled, on_order_update}
use upcow.PairLock.Trigger.{State, PriceChangedEvent, on_price_changed}
use upcow.PairLock.Placing.{Answer, place_pair_async}
use upcow.PairLock.Hedging.{
  start_hedge, finish_hedge, start_monitor_if_needed, on_cycle, primary_timed_out,
}
use upcow.PairLock.StopLoss.{note_stop, check_stop_loss_once, stop_found_filled, replace_hedge}
use upcow.PairLock.Sweep.{
  start_sweeper_if_needed, primary_unconfirmed, both_unconfirmed, positions_found,
  both_positions_found,
}

module _ ⦃fl : Float⦄ where
  open fl use {F}

  pub data Event : Type 0 where
    price_changed : Option PriceChangedEvent → Event
    order_updated : Option Order → Event
    pair_placed : TokenType → Option Market → ℕ → Option Price → Option Price → Answer → Event
    hedge_started : Option Market → Event
    hedge_finished : Option Market → TokenType → ℤ → F → Option Price → Answer → Event
    monitor_asked : Event
    stop_checked : String → Option Price → Event
    stop_noted : String → StopLevel → Event
    stop_filled : String → Event
    hedge_replaced : String → Answer → Event
    merge_finished : Event
    cycle_changed : Option Market → Option Market → Event
    first_timed_out : String → Event
    sweeper_asked : Event
    first_unconfirmed : String → Event
    legs_unconfirmed : String → String → Event
    positions_seen : F → F → Event
    both_positions_seen : F → F → Event

  abbrev in_state : State → Handled → State × List Effect
  in_state s (rt, es) = (record s { rt = rt }, es)

  abbrev pub or_same : PairRuntime → Option PairRuntime → PairRuntime
  or_same rt none = rt
  or_same rt (some rt') = rt'

  unfoldable pub step : Config → Env → Event → State → State × List Effect
  unfolding on_price_changed on_order_update place_pair_async start_hedge finish_hedge
      start_monitor_if_needed check_stop_loss_once note_stop stop_found_filled replace_hedge
      merge_reported on_cycle primary_timed_out start_sweeper_if_needed primary_unconfirmed
      both_unconfirmed positions_found both_positions_found
  step c env (price_changed ev) s = on_price_changed c env ev s
  step c env (order_updated o) s = in_state s (on_order_update c env o s.rt)
  step c env (pair_placed token m n up_ask down_ask a) s =
      in_state s (place_pair_async c env token m n up_ask down_ask a s.rt)
  step c env (hedge_started m) s = (record s { rt = or_same s.rt (start_hedge c env m s.rt) }, [])
  step c env (hedge_finished m token cents size ask a) s =
      in_state s (finish_hedge c env m token cents size ask a s.rt)
  step c env monitor_asked s = in_state s (start_monitor_if_needed s.rt)
  step c env (stop_checked id ask) s = in_state s (check_stop_loss_once c env id ask s.rt)
  step c env (stop_noted id level) s = (record s { rt = note_stop id level s.rt }, [])
  step c env (stop_filled id) s = in_state s (stop_found_filled c env id s.rt)
  step c env (hedge_replaced id a) s = (record s { rt = replace_hedge id a s.rt }, [])
  step c env merge_finished s = (record s { rt = merge_reported c env s.rt }, [])
  step c env (cycle_changed old new) s = on_cycle c env old new s
  step c env (first_timed_out id) s = (record s { rt = primary_timed_out c env id s.rt }, [])
  step c env sweeper_asked s = (record s { rt = start_sweeper_if_needed c s.rt }, [])
  step c env (first_unconfirmed id) s = (record s { rt = primary_unconfirmed c env id s.rt }, [])
  step c env (legs_unconfirmed up_id down_id) s =
      (record s { rt = both_unconfirmed c env up_id down_id s.rt }, [])
  step c env (positions_seen u d) s = in_state s (positions_found c env u d s.rt)
  step c env (both_positions_seen u d) s = in_state s (both_positions_found c env u d s.rt)

  unfoldable pub run : Config → List (Env × Event) → State → State
  unfolding step
  run c [] s = s
  run c ((env, e) ∷ es) s = run c es (step c env e s).0
