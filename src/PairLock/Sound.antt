-- ===== src/PairLock/Sound.antt =====
-- What holds of the state of a pair whenever the strategy's lock is free.
use upcow.Base.{
  Bool, true, false, not, ◌&&◌, ◌||◌, if◌then◌else◌, is_some, Bool-cases, inl, inr, Option, none,
  some, ◌≡◌, refl, arith,
}
use upcow.Base.Float.{Float}
use upcow.Base.Text.{String_discrete}
use upcow.Domain.Market.{is_empty, eq_text}
use upcow.Domain.Order.{Order, filled, eq_status}
use upcow.PairLock.Config.{Config, cooldown_duration}
use upcow.PairLock.State.{
  PairPhase, PairRuntime, Env, cool_until, eq_phase, idle, placing, both_open, primary_open,
  hedge_open, both_filled, merging, cooling, reset_pair, stop_monitor, reset_and_cool,
  trigger_auto_merge,
}
use upcow.PairLock.Orders.{
  Handled, LegNews, no_news, leg_filled, leg_closed, leg_news, update_down, update_up, has_pair,
  matched_primary, matched_hedge, is_same_primary_order, is_same_hedge_order, fill_primary,
  update_primary, fill_hedge, update_hedge, after_legs, update_legs, update_from_hedge,
  update_from_primary, on_order_update,
}

module _ ⦃fl : Float⦄ where
  open fl use {F}

  -- No leg is known, and nothing runs but the sweeper.
  abbrev pub is_clean : PairRuntime → Bool
  is_clean rt =
      is_empty rt.up_order_id
      && is_empty rt.down_order_id
      && is_empty rt.primary_order_id
      && is_empty rt.hedge_order_id
      && not rt.up_filled
      && not rt.down_filled
      && not rt.primary_filled
      && not rt.hedge_filled
      && not rt.monitor_running

  -- What each phase knows. Two phases never last until the lock is free.
  abbrev pub fits : PairPhase → PairRuntime → Bool
  fits idle rt = is_clean rt
  fits placing rt = true
  fits both_open rt =
      not (is_empty rt.up_order_id)
      && not (is_empty rt.down_order_id)
      && not (is_empty rt.hedge_order_id)
  fits primary_open rt =
      not (is_empty rt.primary_order_id) && not rt.primary_filled && is_empty rt.hedge_order_id
  fits hedge_open rt = not (is_empty rt.hedge_order_id)
  fits both_filled rt = false
  fits merging rt = true
  fits cooling rt = false

  abbrev pub IsSound : PairRuntime → Type 0
  IsSound rt = fits rt.phase rt ≡ true

  pub reset_pair-IsSound : (rt : PairRuntime) → IsSound (reset_pair rt)
  unfolding reset_pair String_discrete
  reset_pair-IsSound rt = refl

  pub reset_and_cool-IsSound :
      (c : Config) (env : Env) (rt : PairRuntime) → IsSound (reset_and_cool c env rt)
  unfolding reset_and_cool reset_pair String_discrete
  reset_and_cool-IsSound c env rt = refl

  pub if-IsSound :
      (b : Bool) (x y : Handled) → IsSound x.0 → IsSound y.0 → IsSound (if b then x else y).0
  if-IsSound true x y h k = h
  if-IsSound false x y h k = k

  pub trigger_auto_merge-IsSound :
      (c : Config) (env : Env) (rt : PairRuntime) → IsSound (trigger_auto_merge c env rt).0
  unfolding trigger_auto_merge
  trigger_auto_merge-IsSound c env rt =
      if-IsSound c.decision_only _ _ (reset_and_cool-IsSound c env rt) (
        if-IsSound (not c.auto_merge_enabled) _ _
          (reset_pair-IsSound (record rt {
            phase = cooling;
            cooldown_until = cool_until env.now (cooldown_duration c);
          }))
          (if-IsSound (not env.has_service || not (is_some rt.market)) _ _
            (reset_and_cool-IsSound c env rt) refl))

  fill_primary-IsSound : (o : Order) (rt : PairRuntime) → IsSound rt → IsSound (fill_primary o rt).0
  unfolding fill_primary
  fill_primary-IsSound o rt h = ground arith

  update_primary-IsSound :
      (c : Config) (env : Env) (o : Order) (rt : PairRuntime)
      → IsSound rt
      → IsSound (update_primary c env o rt).0
  unfolding update_primary
  update_primary-IsSound c env o rt h =
      ground (arith, fill_primary-IsSound o rt h, reset_and_cool-IsSound c env rt)

  fill_hedge-IsSound :
      (c : Config) (env : Env) (rt : PairRuntime) → IsSound rt → IsSound (fill_hedge c env rt).0
  unfolding fill_hedge
  fill_hedge-IsSound c env rt h = ground (
    arith,
    trigger_auto_merge-IsSound c env
        (record (stop_monitor (record rt { hedge_filled = true })) { phase = both_filled }),
  )

  update_hedge-IsSound :
      (c : Config) (env : Env) (o : Order) (rt : PairRuntime)
      → IsSound rt
      → IsSound (update_hedge c env o rt).0
  unfolding update_hedge
  update_hedge-IsSound c env o rt h =
      ground (arith, fill_hedge-IsSound c env rt h, reset_and_cool-IsSound c env (stop_monitor rt))

  after_legs-IsSound :
      (c : Config) (env : Env) (o : Order) (updated : Bool) (rt : PairRuntime)
      → IsSound rt
      → IsSound (after_legs c env o updated rt).0
  unfolding after_legs
  after_legs-IsSound c env o updated rt h =
      ground
        (arith, trigger_auto_merge-IsSound c env (stop_monitor (record rt { phase = both_filled })))

  -- Where there is a pair, a mark on a leg breaks nothing.
  down_filled-IsSound :
      (rt : PairRuntime)
      → has_pair rt.phase ≡ true
      → IsSound rt
      → IsSound (record rt { down_filled = true })
  down_filled-IsSound rt p h = ground arith

  up_filled-IsSound :
      (rt : PairRuntime)
      → has_pair rt.phase ≡ true
      → IsSound rt
      → IsSound (record rt { up_filled = true })
  up_filled-IsSound rt p h = ground arith

  update_down-IsSound :
      (c : Config) (env : Env) (o : Order) (updated : Bool) (news : LegNews) (rt : PairRuntime)
      → has_pair rt.phase ≡ true
      → IsSound rt
      → IsSound (update_down c env o updated news rt).0
  update_down-IsSound c env o updated leg_closed rt p h = reset_and_cool-IsSound c env rt
  update_down-IsSound c env o updated leg_filled rt p h =
      after_legs-IsSound c env o true (record rt { down_filled = true })
        (down_filled-IsSound rt p h)
  update_down-IsSound c env o updated no_news rt p h = after_legs-IsSound c env o updated rt h

  update_up-IsSound :
      (c : Config) (env : Env) (o : Order) (news : LegNews) (rt : PairRuntime)
      → has_pair rt.phase ≡ true
      → IsSound rt
      → IsSound (update_up c env o news rt).0
  update_up-IsSound c env o leg_closed rt p h = reset_and_cool-IsSound c env rt
  update_up-IsSound c env o leg_filled rt p h =
      update_down-IsSound c env o true (leg_news rt.down_order_id o)
        (record rt { up_filled = true }) p (up_filled-IsSound rt p h)
  update_up-IsSound c env o no_news rt p h =
      update_down-IsSound c env o false (leg_news rt.down_order_id o) rt p h

  update_legs-IsSound :
      (c : Config) (env : Env) (o : Order) (rt : PairRuntime)
      → has_pair rt.phase ≡ true
      → IsSound rt
      → IsSound (update_legs c env o rt).0
  unfolding update_legs
  update_legs-IsSound c env o rt p h = update_up-IsSound c env o (leg_news rt.up_order_id o) rt p h

  -- A fill under another id, which is not empty.
  matched_hedge-IsSound :
      (c : Config) (env : Env) (o : Order) (rt : PairRuntime)
      → is_empty o.order_id ≡ false
      → eq_phase rt.phase hedge_open ≡ true
      → IsSound rt
      → IsSound (matched_hedge c env o rt).0
  unfolding fill_hedge
  matched_hedge-IsSound c env o rt named p h = ground (
    arith,
    h,
    trigger_auto_merge-IsSound c env
        (record (stop_monitor (record rt { hedge_order_id = o.order_id; hedge_filled = true })) {
          phase = both_filled;
        }),
  )

  matched_primary-IsSound :
      (o : Order) (rt : PairRuntime) → IsSound rt → IsSound (matched_primary o rt).0
  unfolding fill_primary
  matched_primary-IsSound o rt h = ground arith

  update_from_hedge-IsSound :
      (c : Config) (env : Env) (o : Order) (rt : PairRuntime)
      → is_empty o.order_id ≡ false
      → has_pair rt.phase ≡ true
      → IsSound rt
      → IsSound (update_from_hedge c env o rt).0
  unfolding update_from_hedge
  update_from_hedge-IsSound c env o rt named p h =
      elim (Bool-cases (eq_phase rt.phase hedge_open)) [
        | inl watched ↦
            if-IsSound (eq_phase rt.phase hedge_open && not (is_empty rt.hedge_order_id)) _ _
              (if-IsSound (eq_text o.order_id rt.hedge_order_id) _ _
                (update_hedge-IsSound c env o rt h)
                (if-IsSound (eq_status o.status filled && is_same_hedge_order c env rt o) _ _
                  (matched_hedge-IsSound c env o rt named watched h)
                  (update_legs-IsSound c env o rt p h)))
              (update_legs-IsSound c env o rt p h)
        | inr other ↦ ground (arith, other, update_legs-IsSound c env o rt p h)
      ]

  update_from_primary-IsSound :
      (c : Config) (env : Env) (o : Order) (rt : PairRuntime)
      → is_empty o.order_id ≡ false
      → has_pair rt.phase ≡ true
      → IsSound rt
      → IsSound (update_from_primary c env o rt).0
  unfolding update_from_primary
  update_from_primary-IsSound c env o rt named p h =
      if-IsSound (eq_phase rt.phase primary_open && not (is_empty rt.primary_order_id)) _ _
        (if-IsSound (eq_text o.order_id rt.primary_order_id) _ _
          (update_primary-IsSound c env o rt h)
          (if-IsSound (eq_status o.status filled && is_same_primary_order c env rt o) _ _
            (matched_primary-IsSound o rt h) (update_from_hedge-IsSound c env o rt named p h)))
        (update_from_hedge-IsSound c env o rt named p h)

  pub on_order_update-IsSound :
      (c : Config) (env : Env) (o : Option Order) (rt : PairRuntime)
      → IsSound rt
      → IsSound (on_order_update c env o rt).0
  unfolding on_order_update
  on_order_update-IsSound c env none rt h = h
  on_order_update-IsSound c env (some o) rt h = elim (Bool-cases (is_empty o.order_id)) [
    | inl unnamed ↦ ground (arith, unnamed, h)
    | inr named ↦ elim (Bool-cases (has_pair rt.phase)) [
      | inl p ↦ ground (arith, named, p, h, update_from_primary-IsSound c env o rt named p h)
      | inr p ↦ ground (arith, p, h)
    ]
  ]
