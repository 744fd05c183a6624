-- ===== src/PairLock/SoundRun.antt =====
-- velocitypairlock/strategy.go: every step keeps what holds of the state of a pair.
use upcow.Base.{
  String, Bool, true, false, not, ◌&&◌, ◌||◌, if◌then◌else◌, is_some, Bool-cases, inl, inr, List,
  [], ◌∷◌, Option, none, some, arith,
}
use upcow.Base.Int.{pos, le_int}
use upcow.Base.Float.{Float}
use upcow.Domain.Price.{Price, to_cents}
use upcow.Domain.Market.{Market, TokenType, up, down, no_token, is_empty}
use upcow.Domain.Order.{Order}
use upcow.PairLock.Config.{Config}
use upcow.PairLock.State.{
  PairRuntime, Env, Effect, StopLevel, both_filled, stop_monitor, merge_reported, stop_sweeper,
  reset_and_cool,
}
use upcow.PairLock.Trigger.{
  State, PriceChangedEvent, on_price_changed, started, tracked, new_trackers,
}
use upcow.PairLock.Placing.{Answer, created_id}
use upcow.PairLock.Hedging.{
  start_hedge, hedge_order, hedge_submitted, finish_hedge, start_monitor_if_needed, on_cycle,
  primary_timed_out,
}
use upcow.PairLock.StopLoss.{
  is_open_hedge, note_stop, check_stop_loss_once, check_at, act_on, stop_decision, StopAction,
  no_stop, risk_off, stop_at, stop_found_filled, replace_hedge,
}
use upcow.PairLock.Run.{
  or_same, Event, price_changed, order_updated, pair_placed, hedge_started, hedge_finished,
  monitor_asked, stop_checked, stop_noted, stop_filled, hedge_replaced, merge_finished,
  cycle_changed, first_timed_out, sweeper_asked, first_unconfirmed, legs_unconfirmed,
  positions_seen, both_positions_seen, step, run,
}
use upcow.PairLock.Sweep.{
  start_sweeper_if_needed, primary_unconfirmed, both_unconfirmed, positions_found,
  both_positions_found,
}
use upcow.PairLock.SoundPlaced.{place_pair_async-IsSound}
use upcow.PairLock.Sound.{
  IsSound, if-IsSound, reset_pair-IsSound, reset_and_cool-IsSound, trigger_auto_merge-IsSound,
  on_order_update-IsSound,
}

module _ ⦃fl : Float⦄ where
  open fl use {F}

  start_hedge-IsSound :
      (c : Config) (env : Env) (m : Option Market) (rt : PairRuntime)
      → IsSound rt
      → IsSound (or_same rt (start_hedge c env m rt))
  unfolding start_hedge
  start_hedge-IsSound c env m rt h =
      started_or_not (not (is_some m) || not env.has_service || not env.has_executor) _
    where
      started_or_not :
          (a b : Bool)
          → IsSound (
              or_same rt
                (if a then some (reset_and_cool c env rt) else if b then some rt else none))
      started_or_not true b = reset_and_cool-IsSound c env rt
      started_or_not false true = h
      started_or_not false false = h

  hedge_submitted-IsSound :
      (c : Config) (env : Env) (a : Answer) (rt : PairRuntime) (o : Option Order)
      → IsSound (hedge_submitted c env a rt o).0
  hedge_submitted-IsSound c env a rt none = reset_and_cool-IsSound c env rt
  hedge_submitted-IsSound c env a rt (some o) =
      if-IsSound c.decision_only _ _ (reset_and_cool-IsSound c env rt)
        (elim (Bool-cases (is_empty (created_id a))) [
          | inl unnamed ↦ ground (arith, unnamed, reset_and_cool-IsSound c env rt)
          | inr named ↦ ground (arith, named)
        ])

  start_monitor-IsSound : (rt : PairRuntime) → IsSound rt → IsSound (start_monitor_if_needed rt).0
  unfolding start_monitor_if_needed
  start_monitor-IsSound rt h = ground arith

  note_stop-IsSound :
      (id : String) (level : StopLevel) (rt : PairRuntime)
      → IsSound rt
      → IsSound (note_stop id level rt)
  unfolding note_stop
  note_stop-IsSound id level rt h = ground arith

  act_on-IsSound :
      (id : String) (m : Market) (rt : PairRuntime) (x : StopAction)
      → IsSound rt
      → IsSound (act_on id m rt x).0
  act_on-IsSound id m rt no_stop h = h
  act_on-IsSound id m rt risk_off h = h
  act_on-IsSound id m rt (stop_at level cents order_type) h = note_stop-IsSound id level rt h

  check_at-IsSound :
      (c : Config) (id : String) (m : Option Market) (ask : Option Price) (rt : PairRuntime)
      → IsSound rt
      → IsSound (check_at c id m ask rt).0
  check_at-IsSound c id none ask rt h = h
  check_at-IsSound c id (some m) none rt h = h
  check_at-IsSound c id (some m) (some p) rt h =
      if-IsSound (le_int rt.primary_fill_cents (pos 0)) (rt, []) _ h
        (act_on-IsSound id m rt (stop_decision c rt.stop_level rt.primary_fill_cents (to_cents p))
          h)

  check_stop-IsSound :
      (c : Config) (env : Env) (id : String) (ask : Option Price) (rt : PairRuntime)
      → IsSound rt
      → IsSound (check_stop_loss_once c env id ask rt).0
  unfolding check_stop_loss_once
  check_stop-IsSound c env id ask rt h =
      if-IsSound _ _ _ h (check_at-IsSound c id rt.market ask rt h)

  stop_found_filled-IsSound :
      (c : Config) (env : Env) (id : String) (rt : PairRuntime)
      → IsSound rt
      → IsSound (stop_found_filled c env id rt).0
  unfolding stop_found_filled
  stop_found_filled-IsSound c env id rt h =
      if-IsSound (is_open_hedge id rt) _ _
        (trigger_auto_merge-IsSound c env
          (stop_monitor (record rt { hedge_filled = true; phase = both_filled })))
        h

  replace_hedge-IsSound :
      (id : String) (a : Answer) (rt : PairRuntime) → IsSound rt → IsSound (replace_hedge id a rt)
  unfolding replace_hedge
  replace_hedge-IsSound id a rt h = ground arith

  timed_out-IsSound :
      (c : Config) (env : Env) (id : String) (rt : PairRuntime)
      → IsSound rt
      → IsSound (primary_timed_out c env id rt)
  unfolding primary_timed_out
  timed_out-IsSound c env id rt h = ground (arith, h, reset_and_cool-IsSound c env rt)

  started-IsSound :
      (c : Config) (env : Env) (m : Option Market) (token : Option TokenType) (s : State)
      → IsSound s.rt
      → IsSound (started c env m token s).0.rt
  started-IsSound c env m none s h = h
  started-IsSound c env m (some token) s h = ground arith

  tracked-IsSound :
      (c : Config) (env : Env) (ev : PriceChangedEvent) (token : TokenType) (s : State)
      → IsSound s.rt
      → IsSound (tracked c env ev token s).0.rt
  tracked-IsSound c env ev no_token s h = h
  tracked-IsSound c env ev up s h = started-IsSound c env ev.market _ _ h
  tracked-IsSound c env ev down s h = started-IsSound c env ev.market _ _ h

  market-IsSound :
      (m : Option Market) (rt : PairRuntime) → IsSound rt → IsSound (record rt { market = m })
  market-IsSound m rt h = ground arith

  on_price_changed-IsSound :
      (c : Config) (env : Env) (ev : Option PriceChangedEvent) (s : State)
      → IsSound s.rt
      → IsSound (on_price_changed c env ev s).0.rt
  unfolding on_price_changed
  on_price_changed-IsSound c env none s h = h
  on_price_changed-IsSound c env (some ev) s h = taken (c.enabled && is_some ev.market)
    where
      with_market : State
      with_market = record (new_trackers c s) { rt = record s.rt { market = ev.market } }

      taken :
          (b : Bool)
          → IsSound
              (if◌then◌else◌ {A = State × List Effect} b
                (tracked c env ev ev.token_type with_market)
                (s, [])).0.rt
      taken true =
          tracked-IsSound c env ev ev.token_type with_market (market-IsSound ev.market s.rt h)
      taken false = h

  sweeper-IsSound :
      (c : Config) (rt : PairRuntime) → IsSound rt → IsSound (start_sweeper_if_needed c rt)
  unfolding start_sweeper_if_needed
  sweeper-IsSound c rt h = ground (arith, h)

  first_unconfirmed-IsSound :
      (c : Config) (env : Env) (id : String) (rt : PairRuntime)
      → IsSound rt
      → IsSound (primary_unconfirmed c env id rt)
  unfolding primary_unconfirmed
  first_unconfirmed-IsSound c env id rt h = ground (arith, h, reset_and_cool-IsSound c env rt)

  legs_unconfirmed-IsSound :
      (c : Config) (env : Env) (u d : String) (rt : PairRuntime)
      → IsSound rt
      → IsSound (both_unconfirmed c env u d rt)
  unfolding both_unconfirmed
  legs_unconfirmed-IsSound c env u d rt h = ground (arith, h, reset_and_cool-IsSound c env rt)

  positions-IsSound :
      (c : Config) (env : Env) (u d : F) (rt : PairRuntime)
      → IsSound rt
      → IsSound (positions_found c env u d rt).0
  unfolding positions_found
  positions-IsSound c env u d rt h = ground (
    arith,
    h,
    trigger_auto_merge-IsSound c env (
        stop_monitor
          (record rt { primary_filled = true; hedge_filled = true; phase = both_filled })),
  )

  both_positions-IsSound :
      (c : Config) (env : Env) (u d : F) (rt : PairRuntime)
      → IsSound rt
      → IsSound (both_positions_found c env u d rt).0
  unfolding both_positions_found
  both_positions-IsSound c env u d rt h = ground (
    arith,
    h,
    trigger_auto_merge-IsSound c env
        (stop_monitor (record rt { up_filled = true; down_filled = true; phase = both_filled })),
  )

  -- One step keeps it, whatever its arguments are.
  step-IsSound :
      (c : Config) (env : Env) (e : Event) (s : State)
      → IsSound s.rt
      → IsSound (step c env e s).0.rt
  unfolding step finish_hedge merge_reported on_cycle
  step-IsSound c env (price_changed ev) s h = on_price_changed-IsSound c env ev s h
  step-IsSound c env (order_updated o) s h = on_order_update-IsSound c env o s.rt h
  step-IsSound c env (pair_placed token m n u d a) s h =
      place_pair_async-IsSound c env token m n u d a s.rt
  step-IsSound c env (hedge_started m) s h = start_hedge-IsSound c env m s.rt h
  step-IsSound c env (hedge_finished m token cents size ask a) s h =
      hedge_submitted-IsSound c env a s.rt (hedge_order c env m token cents size ask)
  step-IsSound c env monitor_asked s h = start_monitor-IsSound s.rt h
  step-IsSound c env (stop_checked id ask) s h = check_stop-IsSound c env id ask s.rt h
  step-IsSound c env (stop_noted id level) s h = note_stop-IsSound id level s.rt h
  step-IsSound c env (stop_filled id) s h = stop_found_filled-IsSound c env id s.rt h
  step-IsSound c env (hedge_replaced id a) s h = replace_hedge-IsSound id a s.rt h
  step-IsSound c env merge_finished s h = reset_and_cool-IsSound c env s.rt
  step-IsSound c env (cycle_changed old new) s h =
      reset_pair-IsSound
        (record (stop_sweeper (stop_monitor s.rt)) { market = new; trades_this_cycle = pos 0 })
  step-IsSound c env (first_timed_out id) s h = timed_out-IsSound c env id s.rt h
  step-IsSound c env sweeper_asked s h = sweeper-IsSound c s.rt h
  step-IsSound c env (first_unconfirmed id) s h = first_unconfirmed-IsSound c env id s.rt h
  step-IsSound c env (legs_unconfirmed u d) s h = legs_unconfirmed-IsSound c env u d s.rt h
  step-IsSound c env (positions_seen u d) s h = positions-IsSound c env u d s.rt h
  step-IsSound c env (both_positions_seen u d) s h = both_positions-IsSound c env u d s.rt h

  -- After any steps of the strategy's callbacks and goroutines, in any order and with any
  -- arguments, from a sound state, the state is sound: an idle pair has no order, no fill and no
  -- monitor; open legs have their ids, also that of the hedge; an open first leg has an id, is not
  -- filled and has no hedge; an open hedge has an id; and the phases `both_filled` and `cooling` do
  -- not occur.
  pub run-IsSound :
      (c : Config) (es : List (Env × Event)) (s : State) → IsSound s.rt → IsSound (run c es s).rt
  unfolding run
  run-IsSound c [] s h = h
  run-IsSound c ((env, e) ∷ es) s h = run-IsSound c es (step c env e s).0 (step-IsSound c env e s h)
