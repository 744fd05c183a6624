-- ===== src/PairLock/Orders.antt =====
-- velocitypairlock/strategy.go: OnOrderUpdate, in the order of its parts: the first leg and the hedge of the
-- sequential mode, then both legs of the parallel mode.
use upcow.Base.{
  String, Bool, true, false, not, ◌&&◌, ◌||◌, ◌+◌, List, [], ◌∷◌, Option, none, some, if◌then◌else◌,
  ltb, ◌==◌,
}
use upcow.Base.Int.{ℤ, pos, negsuc, sub64, lt_int}
use upcow.Base.Float.{Float}
use upcow.Domain.Price.{to_cents}
use upcow.Domain.Market.{Market, TokenType, eq_side, buy, eq_text, is_empty}
use upcow.Domain.Order.{Order, filled, canceled, failed, eq_status, executed_size}
use upcow.PairLock.Config.{Config}
use upcow.PairLock.State.{
  PairRuntime, Env, Effect, PairPhase, placing, both_open, primary_open, hedge_open, both_filled,
  merging, eq_phase, stop_none, place_hedge, monitor_if_needed, asset_of, stop_monitor,
  reset_and_cool, trigger_auto_merge,
}

abbrev abs_int : ℤ → ℤ
abs_int (pos n) = pos n
abs_int (negsuc n) = pos (n + 1)

module _ ⦃fl : Float⦄ where
  open fl use {F, zero_f, lt_f, sub_f, mul_f, div_f, of_int}

  abbrev pub Handled : Type 0
  Handled = PairRuntime × List Effect

  abbrev abs_f : F → F
  abs_f x = if lt_f x zero_f then sub_f zero_f x else x

  -- More than ten cents from the price that was aimed at, if there is one.
  abbrev too_far : Order → ℤ → ℤ → Bool
  too_far o target expected =
      lt_int (pos 0) target && lt_int (pos 10) (abs_int (sub64 (to_cents o.price) expected))

  -- More than a fifth off the size expected, if that is positive.
  abbrev other_size : Order → F → Bool
  other_size o expected =
      lt_f zero_f expected
      && lt_f (mul_f expected (div_f (of_int (pos 2)) (of_int (pos 10))))
          (abs_f (sub_f o.size expected))

  -- A creation time that is set is not 0.
  abbrev is_new : Env → Order → Bool
  is_new env o = not (o.created_at == 0) && not (ltb (o.created_at + 60_000_000_000) env.now)

  abbrev is_same_in : Env → Order → Market → TokenType → ℤ → ℤ → F → Bool
  is_same_in env o m token target expected size =
      eq_text o.asset_id (asset_of m token)
      && eq_side o.side buy
      && not (too_far o target expected)
      && is_new env o
      && not (other_size o size)

  abbrev is_same : Env → Order → Option Market → TokenType → ℤ → ℤ → F → Bool
  is_same env o none token target expected size = false
  is_same env o (some m) token target expected size = is_same_in env o m token target expected size

  unfoldable pub is_same_primary_order : Config → Env → PairRuntime → Order → Bool
  unfolding to_cents
  is_same_primary_order c env rt o =
      is_same env o rt.market rt.primary_token rt.hedge_target_cents
        (sub64 (sub64 (pos 100) rt.hedge_target_cents) c.profit_cents) c.order_size

  unfoldable pub is_same_hedge_order : Config → Env → PairRuntime → Order → Bool
  unfolding to_cents
  is_same_hedge_order c env rt o =
      is_same env o rt.market rt.hedge_token rt.hedge_target_cents rt.hedge_target_cents
        (if lt_f zero_f rt.primary_fill_size then rt.primary_fill_size else c.order_size)

  abbrev pub is_closed : Order → Bool
  is_closed o = eq_status o.status canceled || eq_status o.status failed

  -- The first leg is filled: the hedge is placed in a goroutine of its own.
  unfoldable pub fill_primary : Order → PairRuntime → Handled
  unfolding to_cents executed_size
  fill_primary o rt = if rt.primary_filled then (rt, []) else (
    record rt {
      primary_filled = true;
      primary_fill_cents = to_cents o.price;
      primary_fill_size = executed_size (some o);
      phase = placing;
    },
    place_hedge rt.market rt.hedge_token rt.hedge_target_cents (executed_size (some o)) ∷ [],
  )

  -- An update under the first leg's id.
  unfoldable pub update_primary : Config → Env → Order → PairRuntime → Handled
  unfolding fill_primary executed_size reset_and_cool
  update_primary c env o rt =
      if eq_status o.status filled
      then fill_primary o rt
      else if is_closed o
      then if lt_f zero_f (executed_size (some o))
        then fill_primary o rt
        else (reset_and_cool c env rt, [])
      else (rt, [])

  unfoldable pub fill_hedge : Config → Env → PairRuntime → Handled
  unfolding trigger_auto_merge stop_monitor
  fill_hedge c env rt =
      if rt.hedge_filled
      then (rt, [])
      else trigger_auto_merge c env
          (record (stop_monitor (record rt { hedge_filled = true })) { phase = both_filled })

  unfoldable pub update_hedge : Config → Env → Order → PairRuntime → Handled
  unfolding fill_hedge reset_and_cool stop_monitor
  update_hedge c env o rt =
      if eq_status o.status filled
      then fill_hedge c env rt
      else if is_closed o
      then (reset_and_cool c env (stop_monitor rt), [])
      else (rt, [])

  -- A fill that comes under another id, with the order's attributes.
  abbrev pub matched_primary : Order → PairRuntime → Handled
  matched_primary o rt =
      if rt.primary_filled
      then (rt, [])
      else fill_primary o (record rt { primary_order_id = o.order_id })

  abbrev pub matched_hedge : Config → Env → Order → PairRuntime → Handled
  matched_hedge c env o rt =
      if rt.hedge_filled
      then (rt, [])
      else fill_hedge c env (record rt { hedge_order_id = o.order_id })

  -- What an update says of a leg of the parallel mode.
  pub data LegNews : Type 0 where
    no_news leg_filled leg_closed : LegNews

  abbrev pub leg_news : String → Order → LegNews
  leg_news id o =
      if is_empty id || not (eq_text o.order_id id)
      then no_news
      else if eq_status o.status filled
      then leg_filled
      else if is_closed o
      then leg_closed
      else no_news

  abbrev one_filled : PairRuntime → Bool
  one_filled rt = (rt.up_filled && not rt.down_filled) || (not rt.up_filled && rt.down_filled)

  abbrev note_fill : Order → PairRuntime → PairRuntime
  note_fill o rt =
      if eq_status o.status filled
      then record rt {
        primary_fill_cents = to_cents o.price;
        primary_fill_size = executed_size (some o);
      }
      else rt

  -- After the legs: both are filled, or one is and the other is watched.
  unfoldable pub after_legs : Config → Env → Order → Bool → PairRuntime → Handled
  unfolding trigger_auto_merge stop_monitor to_cents executed_size
  after_legs c env o updated rt =
      if updated && rt.up_filled && rt.down_filled
      then if eq_phase rt.phase merging
        then (rt, [])
        else trigger_auto_merge c env (stop_monitor (record rt { phase = both_filled }))
      else if updated
          && eq_phase rt.phase both_open
          && c.price_stop_enabled
          && one_filled rt
          && not rt.monitor_running
      then (
        record (note_fill o rt) { phase = hedge_open; stop_level = stop_none },
        monitor_if_needed ∷ [],
      )
      else (rt, [])

  abbrev pub update_down : Config → Env → Order → Bool → LegNews → PairRuntime → Handled
  update_down c env o updated leg_closed rt = (reset_and_cool c env rt, [])
  update_down c env o updated leg_filled rt =
      after_legs c env o true (record rt { down_filled = true })
  update_down c env o updated no_news rt = after_legs c env o updated rt

  abbrev pub update_up : Config → Env → Order → LegNews → PairRuntime → Handled
  update_up c env o leg_closed rt = (reset_and_cool c env rt, [])
  update_up c env o leg_filled rt =
      update_down c env o true (leg_news rt.down_order_id o) (record rt { up_filled = true })
  update_up c env o no_news rt = update_down c env o false (leg_news rt.down_order_id o) rt

  unfoldable pub update_legs : Config → Env → Order → PairRuntime → Handled
  unfolding after_legs reset_and_cool
  update_legs c env o rt = update_up c env o (leg_news rt.up_order_id o) rt

  -- The sequential mode's hedge, then the parallel mode.
  unfoldable pub update_from_hedge : Config → Env → Order → PairRuntime → Handled
  unfolding update_hedge is_same_hedge_order fill_hedge update_legs
  update_from_hedge c env o rt =
      if eq_phase rt.phase hedge_open && not (is_empty rt.hedge_order_id)
      then if eq_text o.order_id rt.hedge_order_id
        then update_hedge c env o rt
        else if eq_status o.status filled && is_same_hedge_order c env rt o
        then matched_hedge c env o rt
        else update_legs c env o rt
      else update_legs c env o rt

  unfoldable pub update_from_primary : Config → Env → Order → PairRuntime → Handled
  unfolding update_primary is_same_primary_order fill_primary update_from_hedge
  update_from_primary c env o rt =
      if eq_phase rt.phase primary_open && not (is_empty rt.primary_order_id)
      then if eq_text o.order_id rt.primary_order_id
        then update_primary c env o rt
        else if eq_status o.status filled && is_same_primary_order c env rt o
        then matched_primary o rt
        else update_from_hedge c env o rt
      else update_from_hedge c env o rt

  abbrev pub has_pair : PairPhase → Bool
  has_pair p =
      eq_phase p both_open
      || eq_phase p primary_open
      || eq_phase p hedge_open
      || eq_phase p both_filled
      || eq_phase p merging

  -- `none` is a nil order.
  unfoldable pub on_order_update : Config → Env → Option Order → PairRuntime → Handled
  unfolding update_from_primary
  on_order_update c env none rt = (rt, [])
  on_order_update c env (some o) rt =
      if c.enabled && has_pair rt.phase && not (is_empty o.order_id)
      then update_from_primary c env o rt
      else (rt, [])
