-- ===== src/PairLock/Placing.antt =====
-- velocitypairlock/strategy.go: placePairAsync. The prices that orderutil quotes, the count of open orders and the
-- executor's answer are arguments. What follows the last wait is one step on the state that it then finds.
use upcow.Base.{
  ℕ, String, Bool, false, not, ◌&&◌, ◌||◌, List, [], ◌∷◌, Option, none, some, or_else,
  if◌then◌else◌,
}
use upcow.Base.Int.{ℤ, pos, add64, lt_int}
use upcow.Base.Float.{Float}
use upcow.Domain.Price.{Price, to_cents}
use upcow.Domain.Market.{Market, TokenType, no_token, up, down, eq_token, eq_text, is_empty}
use upcow.Domain.Order.{Order}
use upcow.PairLock.Config.{Config, cooldown_duration}
use upcow.PairLock.Pricer.{Priced, priced, refused, price_pair_lock}
use upcow.PairLock.State.{
  PairRuntime, Env, Effect, both_open, primary_open, stop_none, submit_orders, cancel_orders,
  confirm_primary, confirm_parallel, time_out_primary, sweep_once, cool_until, reset_and_cool,
  make_buy_order,
}
use upcow.PairLock.Orders.{Handled}

module _ ⦃fl : Float⦄ where
  open fl use {F, zero_f, lt_f, le_f, sub_f, mul_f, div_f, of_int}

  pub record SidePlan : Type 0 where
    pub primary_token : TokenType
    pub primary_cents : ℤ
    pub hedge_cents : ℤ

  abbrev plan_of : TokenType → Priced → Option SidePlan
  plan_of token (refused e) = none
  plan_of token (priced p) = some (record {
    primary_token = token;
    primary_cents = p.primary_cents;
    hedge_cents = p.hedge_cents;
  })

  -- A plan with `token` first, by its quote, where `wanted` says that it is its turn.
  abbrev plan_for : Config → Bool → TokenType → Option Price → Option SidePlan
  plan_for c wanted token none = none
  plan_for c wanted token (some ask) =
      if wanted
      then plan_of token (
          price_pair_lock (to_cents ask) c.profit_cents c.min_entry_price_cents
            c.max_entry_price_cents)
      else none

  -- The token that triggered comes first, the other is the fallback. `none` is a failed quote.
  unfoldable pub choose_plan : Config → TokenType → Option Price → Option Price → Option SidePlan
  unfolding price_pair_lock to_cents
  choose_plan c token up_ask down_ask = or_else (plan_for c (eq_token token up) up up_ask) (
      or_else (plan_for c (eq_token token down) down down_ask) (
        or_else (plan_for c (not (eq_token token up)) up up_ask)
          (plan_for c (not (eq_token token down)) down down_ask)))

  abbrev pub cents_of : SidePlan → TokenType → ℤ
  cents_of p token = if eq_token p.primary_token token then p.primary_cents else p.hedge_cents

  -- An order that is worth too little.
  abbrev pub too_small : Config → ℤ → Bool
  too_small c cents =
      lt_f (mul_f (div_f (of_int cents) (of_int (pos 100))) c.order_size) c.min_order_usdc

  abbrev pub outside : ℤ → ℤ → ℤ → Bool
  outside least most v = lt_int v least || lt_int most v

  -- What the executor answers: whether it failed, and the orders that it made.
  pub record Answer : Type 0 where
    pub has_failed : Bool
    pub created : List (Option Order)

  abbrev id_of : Option Order → String
  id_of none = ""
  id_of (some o) = o.order_id

  abbrev first_id : List (Option Order) → String
  first_id [] = ""
  first_id (o ∷ os) = id_of o

  abbrev pub created_id : Answer → String
  created_id a = if a.has_failed then "" else first_id a.created

  -- The id of the last order for the asset of `token`; YES is looked for first.
  abbrev is_for : Market → TokenType → Order → Bool
  is_for m up o = eq_text o.asset_id m.yes_asset_id
  is_for m down o = not (eq_text o.asset_id m.yes_asset_id) && eq_text o.asset_id m.no_asset_id
  is_for m no_token o = false

  abbrev pub last_id_for : Market → TokenType → String → List (Option Order) → String
  last_id_for m token id [] = id
  last_id_for m token id (none ∷ os) = last_id_for m token id os
  last_id_for m token id (some o ∷ os) =
      last_id_for m token (if is_for m token o then o.order_id else id) os

  abbrev other : TokenType → TokenType
  other up = down
  other down = up
  other no_token = down

  abbrev pub price_or_zero : Option Price → ℤ
  price_or_zero none = pos 0
  price_or_zero (some p) = to_cents p

  abbrev pub drop_pair : Config → Env → PairRuntime → Handled
  drop_pair c env rt = (reset_and_cool c env rt, [])

  -- The first leg of the sequential mode is at the exchange.
  unfoldable pub primary_placed :
      Config → Env → Market → SidePlan → String → PairRuntime → PairRuntime
  unfolding cooldown_duration
  primary_placed c env m plan id rt = record rt {
    market = some m;
    primary_token = plan.primary_token;
    primary_order_id = id;
    primary_filled = false;
    primary_fill_cents = pos 0;
    hedge_token = other plan.primary_token;
    hedge_order_id = "";
    hedge_filled = false;
    hedge_target_cents = plan.hedge_cents;
    stop_level = stop_none;
    phase = primary_open;
    trades_this_cycle = add64 rt.trades_this_cycle (pos 1);
    cooldown_until = cool_until env.now (cooldown_duration c);
  }

  -- Both legs of the parallel mode are at the exchange.
  unfoldable pub both_placed :
      Config → Env → Market → SidePlan → String → String → PairRuntime → PairRuntime
  unfolding cooldown_duration
  both_placed c env m plan up_id down_id rt = record rt {
    market = some m;
    up_order_id = up_id;
    down_order_id = down_id;
    up_filled = false;
    down_filled = false;
    primary_token = plan.primary_token;
    primary_order_id = if eq_token plan.primary_token up then up_id else down_id;
    hedge_token = other plan.primary_token;
    hedge_order_id = if eq_token plan.primary_token up then down_id else up_id;
    phase = both_open;
    trades_this_cycle = add64 rt.trades_this_cycle (pos 1);
    cooldown_until = cool_until env.now (cooldown_duration c);
  }

  abbrev time_out_if : Config → String → List Effect
  time_out_if c id =
      if lt_int (pos 0) c.sequential_primary_max_wait_ms then time_out_primary id ∷ [] else []

  abbrev pub first_submitted :
      Config → Env → Market → SidePlan → Answer → PairRuntime → Option Order → Handled
  first_submitted c env m plan a rt none = drop_pair c env rt
  first_submitted c env m plan a rt (some o) =
      if c.decision_only
      then drop_pair c env rt
      else if is_empty (created_id a)
      then (reset_and_cool c env rt, submit_orders (o ∷ []) ∷ [])
      else (
        primary_placed c env m plan (created_id a) rt,
        submit_orders (o ∷ []) ∷ confirm_primary (created_id a) ∷ time_out_if c (created_id a),
      )

  unfoldable pub place_sequential :
      Config → Env → Market → SidePlan → ℤ → Answer → PairRuntime → Handled
  unfolding make_buy_order reset_and_cool primary_placed
  place_sequential c env m plan best_ask a rt = first_submitted c env m plan a rt (
      make_buy_order c env (some m) plan.primary_token plan.primary_cents best_ask
        c.primary_order_style c.order_size false)

  abbrev cancel_created : Answer → List Effect
  cancel_created a = elim a.created [ [] ↦ [] | o ∷ os ↦ cancel_orders a.created ∷ [] ]

  abbrev pub both_submitted :
      Config
      → Env
      → Market
      → SidePlan
      → Answer
      → PairRuntime
      → Option Order
      → Option Order
      → Handled
  both_submitted c env m plan a rt none d = drop_pair c env rt
  both_submitted c env m plan a rt (some u) none = drop_pair c env rt
  both_submitted c env m plan a rt (some u) (some d) =
      if c.decision_only
      then drop_pair c env rt
      else if a.has_failed
      then (reset_and_cool c env rt, submit_orders (u ∷ d ∷ []) ∷ cancel_created a)
      else if is_empty (last_id_for m up "" a.created) || is_empty (last_id_for m down "" a.created)
      then (reset_and_cool c env rt, submit_orders (u ∷ d ∷ []) ∷ [])
      else (
        both_placed c env m plan (last_id_for m up "" a.created) (last_id_for m down "" a.created)
            rt,
        submit_orders (u ∷ d ∷ [])
            ∷ confirm_parallel (last_id_for m up "" a.created) (last_id_for m down "" a.created)
            ∷ [],
      )

  abbrev pub style_of : Config → SidePlan → TokenType → String
  style_of c p token =
      if eq_token p.primary_token token then c.primary_order_style else c.hedge_order_style

  unfoldable pub place_parallel :
      Config → Env → Market → SidePlan → ℤ → ℤ → Answer → PairRuntime → Handled
  unfolding make_buy_order reset_and_cool both_placed
  place_parallel c env m plan up_ask down_ask a rt =
      both_submitted c env m plan a rt
        (make_buy_order c env (some m) up (cents_of plan up) up_ask (style_of c plan up)
          c.order_size false)
        (make_buy_order c env (some m) down (cents_of plan down) down_ask (style_of c plan down)
          c.order_size false)

  abbrev pub is_sequential : Config → Bool
  is_sequential c = eq_text c.order_execution_mode "sequential"

  abbrev pub place_plan :
      Config
      → Env
      → Market
      → Option Price
      → Option Price
      → Answer
      → PairRuntime
      → Option SidePlan
      → Handled
  place_plan c env m up_ask down_ask a rt none = drop_pair c env rt
  place_plan c env m up_ask down_ask a rt (some plan) =
      if is_sequential c
        && outside c.sequential_primary_min_cents c.sequential_primary_max_cents plan.primary_cents
      then drop_pair c env rt
      else if too_small c (cents_of plan up) || too_small c (cents_of plan down)
      then drop_pair c env rt
      else if is_sequential c
      then place_sequential c env m plan
          (price_or_zero (if eq_token plan.primary_token down then down_ask else up_ask)) a rt
      else place_parallel c env m plan (price_or_zero up_ask) (price_or_zero down_ask) a rt

  -- `open_orders` counts the market's open orders.
  unfoldable pub place_pair_async :
      Config
      → Env
      → TokenType
      → Option Market
      → ℕ
      → Option Price
      → Option Price
      → Answer
      → PairRuntime
      → Handled
  unfolding choose_plan place_sequential place_parallel reset_and_cool to_cents
  place_pair_async c env token none open_orders up_ask down_ask a rt = drop_pair c env rt
  place_pair_async c env token (some m) open_orders up_ask down_ask a rt =
      if not env.has_executor || not env.has_service
      then drop_pair c env rt
      else if lt_int (pos 0) c.max_open_orders_in_market
          && lt_int c.max_open_orders_in_market (pos open_orders)
      then (reset_and_cool c env rt, sweep_once ∷ [])
      else place_plan c env m up_ask down_ask a rt (choose_plan c token up_ask down_ask)
