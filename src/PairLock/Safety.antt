-- ===== src/PairLock/Safety.antt =====
-- velocitypairlock/strategy.go: how often a pair is hedged, and how often its stop loss acts.
use upcow.Base.{
  ◌⊎◌, ℕ, Bool, true, false, not, ◌&&◌, ◌+◌, ◌≤◌, if◌then◌else◌, inl, inr, List, [], ◌∷◌, Option,
  none, some, ◌≡◌, refl, arith,
}
use upcow.Base.Float.{Float}
use upcow.Domain.Market.{is_empty, eq_text}
use upcow.Domain.Order.{Order, filled, canceled, eq_status, executed_size}
use upcow.PairLock.Config.{Config}
use upcow.PairLock.State.{
  PairRuntime, Env, Effect, placing, primary_open, hedge_open, both_filled, eq_phase, place_hedge,
  stop_monitor, trigger_auto_merge,
}
use upcow.PairLock.Orders.{
  Handled, LegNews, no_news, leg_filled, leg_closed, leg_news, is_closed, fill_primary,
  update_primary, fill_hedge, update_hedge, after_legs, update_down, update_up, update_legs,
  update_from_hedge, update_from_primary, on_order_update, is_same_primary_order,
  is_same_hedge_order, has_pair,
}

module _ ⦃fl : Float⦄ where
  open fl use {F, zero_f, lt_f}

  abbrev is_hedge : Effect → ℕ
  is_hedge (place_hedge m token cents size) = 1
  is_hedge _ = 0

  -- How many of the effects place a hedge.
  abbrev pub hedges : List Effect → ℕ
  hedges [] = 0
  hedges (e ∷ es) = is_hedge e + hedges es

  -- Updates of orders, one after another, and how many hedges they start.
  unfoldable pub hedges_started : Config → List (Env × Option Order) → PairRuntime → ℕ
  unfolding on_order_update
  hedges_started c [] rt = 0
  hedges_started c ((env, o) ∷ os) rt =
      let r = on_order_update c env o rt in hedges r.1 + hedges_started c os r.0

  -- While an order is being placed, updates do nothing.
  placing-hedges :
      (c : Config) (os : List (Env × Option Order)) (rt : PairRuntime)
      → rt.phase ≡ placing
      → hedges_started c os rt ≡ 0
  unfolding hedges_started on_order_update
  placing-hedges c [] rt h = refl
  placing-hedges c ((env, none) ∷ os) rt h = omega (arith, placing-hedges c os rt h)
  placing-hedges c ((env, some o) ∷ os) rt h =
      let rest = placing-hedges c os rt h in ground (arith, rest, h)

  -- A hedge at most, after which an order is being placed.
  abbrev Once : Handled → Type 0
  Once r = (hedges r.1 ≡ 0) ⊎ ((hedges r.1 ≡ 1) × (r.0.phase ≡ placing))

  trigger-hedges :
      (c : Config) (env : Env) (rt : PairRuntime) → hedges (trigger_auto_merge c env rt).1 ≡ 0
  unfolding trigger_auto_merge
  trigger-hedges c env rt = ground arith

  fill_primary-Once : (o : Order) (rt : PairRuntime) → Once (fill_primary o rt)
  unfolding fill_primary
  fill_primary-Once o rt = ground arith

  if-Once : (b : Bool) (x y : Handled) → Once x → Once y → Once (if b then x else y)
  if-Once true x y h k = h
  if-Once false x y h k = k

  no_effect-Once : (rt : PairRuntime) → Once (rt, [])
  no_effect-Once rt = inl refl

  trigger-Once : (c : Config) (env : Env) (rt : PairRuntime) → Once (trigger_auto_merge c env rt)
  trigger-Once c env rt = inl (trigger-hedges c env rt)

  fill_hedge-Once : (c : Config) (env : Env) (rt : PairRuntime) → Once (fill_hedge c env rt)
  unfolding fill_hedge
  fill_hedge-Once c env rt = if-Once rt.hedge_filled _ _ (no_effect-Once rt) (
      trigger-Once c env
        (record (stop_monitor (record rt { hedge_filled = true })) { phase = both_filled }))

  after_legs-Once :
      (c : Config) (env : Env) (o : Order) (updated : Bool) (rt : PairRuntime)
      → Once (after_legs c env o updated rt)
  unfolding after_legs
  after_legs-Once c env o updated rt =
      ground (arith, trigger-Once c env (stop_monitor (record rt { phase = both_filled })))

  update_down-Once :
      (c : Config) (env : Env) (o : Order) (updated : Bool) (news : LegNews) (rt : PairRuntime)
      → Once (update_down c env o updated news rt)
  update_down-Once c env o updated leg_closed rt = inl refl
  update_down-Once c env o updated leg_filled rt =
      after_legs-Once c env o true (record rt { down_filled = true })
  update_down-Once c env o updated no_news rt = after_legs-Once c env o updated rt

  update_up-Once :
      (c : Config) (env : Env) (o : Order) (news : LegNews) (rt : PairRuntime)
      → Once (update_up c env o news rt)
  update_up-Once c env o leg_closed rt = inl refl
  update_up-Once c env o leg_filled rt =
      update_down-Once c env o true (leg_news rt.down_order_id o) (record rt { up_filled = true })
  update_up-Once c env o no_news rt =
      update_down-Once c env o false (leg_news rt.down_order_id o) rt

  update_from_hedge-Once :
      (c : Config) (env : Env) (o : Order) (rt : PairRuntime) → Once (update_from_hedge c env o rt)
  unfolding update_from_hedge update_hedge update_legs
  update_from_hedge-Once c env o rt =
      if-Once (eq_phase rt.phase hedge_open && not (is_empty rt.hedge_order_id)) _ _
        (if-Once (eq_text o.order_id rt.hedge_order_id) _ _
          (if-Once (eq_status o.status filled) _ _ (fill_hedge-Once c env rt)
            (if-Once (is_closed o) _ _ (inl refl) (no_effect-Once rt)))
          (if-Once (eq_status o.status filled && is_same_hedge_order c env rt o) _ _
            (if-Once rt.hedge_filled _ _ (no_effect-Once rt)
              (fill_hedge-Once c env (record rt { hedge_order_id = o.order_id })))
            (update_up-Once c env o (leg_news rt.up_order_id o) rt)))
        (update_up-Once c env o (leg_news rt.up_order_id o) rt)

  update_from_primary-Once :
      (c : Config) (env : Env) (o : Order) (rt : PairRuntime)
      → Once (update_from_primary c env o rt)
  unfolding update_from_primary update_primary
  update_from_primary-Once c env o rt =
      if-Once (eq_phase rt.phase primary_open && not (is_empty rt.primary_order_id)) _ _
        (if-Once (eq_text o.order_id rt.primary_order_id) _ _
          (if-Once (eq_status o.status filled) _ _ (fill_primary-Once o rt) (
            if-Once (is_closed o) _ _
              (if-Once (lt_f zero_f (executed_size (some o))) _ _ (fill_primary-Once o rt)
                (inl refl))
              (no_effect-Once rt)))
          (if-Once (eq_status o.status filled && is_same_primary_order c env rt o) _ _
            (if-Once rt.primary_filled _ _ (no_effect-Once rt)
              (fill_primary-Once o (record rt { primary_order_id = o.order_id })))
            (update_from_hedge-Once c env o rt)))
        (update_from_hedge-Once c env o rt)

  on_order_update-Once :
      (c : Config) (env : Env) (o : Option Order) (rt : PairRuntime)
      → Once (on_order_update c env o rt)
  unfolding on_order_update
  on_order_update-Once c env none rt = no_effect-Once rt
  on_order_update-Once c env (some o) rt =
      if-Once (c.enabled && has_pair rt.phase && not (is_empty o.order_id)) _ _
        (update_from_primary-Once c env o rt) (no_effect-Once rt)

  -- Any updates of orders, one after another and from any state, start no more than one hedge.
  pub hedges_started-le :
      (c : Config) (os : List (Env × Option Order)) (rt : PairRuntime) → hedges_started c os rt ≤ 1
  unfolding hedges_started
  hedges_started-le c [] rt = omega arith
  hedges_started-le c ((env, o) ∷ os) rt =
      let r : Handled = on_order_update c env o rt in
      elim (on_order_update-Once c env o rt) [
        | inl none_yet ↦ omega (arith, none_yet, hedges_started-le c os r.0)
        | inr hedged ↦ omega (arith, hedged.0, placing-hedges c os r.0 hedged.1)
      ]

  -- When the open first leg of an enabled strategy is canceled and nothing of it was filled, its
  -- whole size is hedged all the same. The leg has an id, a positive size, and was not filled
  -- before.
  pub canceled_primary_hedged :
      (c : Config) (env : Env) (o : Order) (rt : PairRuntime)
      → c.enabled ≡ true
      → rt.phase ≡ primary_open
      → rt.primary_filled ≡ false
      → is_empty o.order_id ≡ false
      → eq_text o.order_id rt.primary_order_id ≡ true
      → is_empty rt.primary_order_id ≡ false
      → o.status ≡ canceled
      → lt_f zero_f o.filled_size ≡ false
      → lt_f zero_f o.size ≡ true
      → (on_order_update c env (some o) rt).1
        ≡ place_hedge rt.market rt.hedge_token rt.hedge_target_cents o.size ∷ []
  unfolding on_order_update update_from_primary update_primary fill_primary executed_size
  canceled_primary_hedged c env o rt on placed unfilled named same known gone nothing some_size =
      ground (arith, on, placed, unfilled, named, same, known, gone, nothing, some_size)
