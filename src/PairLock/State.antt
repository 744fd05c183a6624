-- ===== src/PairLock/State.antt =====
-- velocitypairlock/state.go and the parts of strategy.go that several handlers share: the state of a pair, its
-- reset, the merge after both fills. A function here runs under the strategy's lock. What it starts (goroutines,
-- orders) is a list of effects.
use upcow.Base.{
  ℕ, String, Bool, true, false, not, ◌||◌, ◌+◌, ◌==◌, List, [], ◌∷◌, Option, none, some, is_some,
  if◌then◌else◌,
}
use upcow.Base.Int.{ℤ, pos, lt_int, add64, mul64}
use upcow.Base.Float.{Float}
use upcow.Domain.Price.{Price}
use upcow.Domain.Market.{Market, TokenType, no_token, up, eq_token, eq_text, buy}
use upcow.Domain.Order.{Order, Time, pending}
use upcow.PairLock.Config.{Config, cooldown_duration}

pub data PairPhase : Type 0 where
  idle placing both_open primary_open hedge_open both_filled merging cooling : PairPhase

abbrev pub phase_code : PairPhase → ℕ
phase_code idle = 0
phase_code placing = 1
phase_code both_open = 2
phase_code primary_open = 3
phase_code hedge_open = 4
phase_code both_filled = 5
phase_code merging = 6
phase_code cooling = 7

abbrev pub eq_phase : PairPhase → PairPhase → Bool
eq_phase p q = phase_code p == phase_code q

pub data StopLevel : Type 0 where
  stop_none stop_soft stop_hard : StopLevel

-- What a handler reads besides the state: the clock, whether there are a trading service and an executor, and
-- the length of a cycle by the market's specification.
pub record Env : Type 0 where
  pub now : Time
  pub has_service : Bool
  pub has_executor : Bool
  pub cycle_duration : Time

-- `int64` durations in nanoseconds, which are positive here.
abbrev pub cool_until : ℕ → ℕ → Option Time
cool_until now d = some (now + d)

-- 100 pips are a cent.
unfoldable pub price_from_cents : ℤ → Price
price_from_cents c = record { pips = mul64 c (pos 100) }

unfoldable pub clamp_cents : ℤ → ℤ → ℤ → ℤ
clamp_cents v least most = if lt_int v least then least else if lt_int most v then most else v

abbrev pub asset_of : Market → TokenType → String
asset_of m token = if eq_token token up then m.yes_asset_id else m.no_asset_id

module _ ⦃fl : Float⦄ where
  open fl use {F, zero_f}

  -- The functions that cancel the background loops are there just while these run.
  pub record PairRuntime : Type 0 where
    pub phase : PairPhase
    pub market : Option Market
    pub up_order_id : String
    pub down_order_id : String
    pub up_filled : Bool
    pub down_filled : Bool
    pub primary_token : TokenType
    pub primary_order_id : String
    pub primary_filled : Bool
    pub primary_fill_cents : ℤ
    pub primary_fill_size : F
    pub hedge_token : TokenType
    pub hedge_order_id : String
    pub hedge_filled : Bool
    pub hedge_target_cents : ℤ
    pub stop_level : StopLevel
    pub monitor_running : Bool
    pub sweeper_running : Bool
    pub trades_this_cycle : ℤ
    pub cooldown_until : Option Time

  -- What a handler starts or asks of others.
  pub data Effect : Type 0 where
    place_pair : TokenType → Option Market → Effect
    place_hedge : Option Market → TokenType → ℤ → F → Effect
    monitor_if_needed : Effect
    monitor_loop : String → Effect
    merge_later : Option Market → ℤ → Effect
    merge_previous : Market → Effect
    submit_orders : List Order → Effect
    cancel_orders : List (Option Order) → Effect
    confirm_primary : String → Effect
    confirm_parallel : String → String → Effect
    time_out_primary : String → Effect
    sweep_once : Effect
    stop_loss : String → TokenType → Market → ℤ → String → Effect
    trigger_risk_off : Effect

  abbrev pub new_runtime : PairRuntime
  new_runtime = record {
    phase = idle;
    market = none;
    up_order_id = "";
    down_order_id = "";
    up_filled = false;
    down_filled = false;
    primary_token = no_token;
    primary_order_id = "";
    primary_filled = false;
    primary_fill_cents = pos 0;
    primary_fill_size = zero_f;
    hedge_token = no_token;
    hedge_order_id = "";
    hedge_filled = false;
    hedge_target_cents = pos 0;
    stop_level = stop_none;
    monitor_running = false;
    sweeper_running = false;
    trades_this_cycle = pos 0;
    cooldown_until = none;
  }

  unfoldable pub stop_monitor : PairRuntime → PairRuntime
  stop_monitor rt = record rt { monitor_running = false; stop_level = stop_none }

  unfoldable pub stop_sweeper : PairRuntime → PairRuntime
  stop_sweeper rt = record rt { sweeper_running = false }

  unfoldable pub reset_pair : PairRuntime → PairRuntime
  unfolding stop_monitor stop_sweeper
  reset_pair rt = record (stop_sweeper (stop_monitor rt)) {
    phase = idle;
    up_order_id = "";
    down_order_id = "";
    up_filled = false;
    down_filled = false;
    primary_token = no_token;
    primary_order_id = "";
    primary_filled = false;
    primary_fill_cents = pos 0;
    primary_fill_size = zero_f;
    hedge_token = no_token;
    hedge_order_id = "";
    hedge_filled = false;
    hedge_target_cents = pos 0;
    stop_level = stop_none;
  }

  -- The reset and the cooldown that follows it nearly everywhere.
  unfoldable pub reset_and_cool : Config → Env → PairRuntime → PairRuntime
  unfolding reset_pair cooldown_duration
  reset_and_cool c env rt = record (reset_pair rt) {
    cooldown_until = cool_until env.now (cooldown_duration c);
  }

  abbrev pub delay_seconds : Config → ℤ
  delay_seconds c =
      if lt_int c.merge_trigger_delay_seconds (pos 0) then pos 0 else c.merge_trigger_delay_seconds

  unfoldable pub trigger_auto_merge : Config → Env → PairRuntime → PairRuntime × List Effect
  unfolding reset_and_cool reset_pair cooldown_duration
  trigger_auto_merge c env rt =
      if c.decision_only
      then (reset_and_cool c env rt, [])
      else if not c.auto_merge_enabled
      then (
        reset_pair (record rt {
          phase = cooling;
          cooldown_until = cool_until env.now (cooldown_duration c);
        }),
        [],
      )
      else if not env.has_service || not (is_some rt.market)
      then (reset_and_cool c env rt, [])
      else (record rt { phase = merging }, merge_later rt.market (delay_seconds c) ∷ [])

  -- The callback of the merge, for the reports that it acts on: "balance_refreshed", "completed" and "failed".
  unfoldable pub merge_reported : Config → Env → PairRuntime → PairRuntime
  unfolding reset_and_cool
  merge_reported c env rt = reset_and_cool c env rt

  -- A new order to buy; the fields that the literal leaves out have Go's zero values.
  unfoldable pub buy_order : Env → Market → TokenType → ℤ → String → F → Bool → Order
  unfolding price_from_cents
  buy_order env m token cents order_type size bypass = record {
    order_id = "";
    market_slug = m.slug;
    asset_id = asset_of m token;
    side = buy;
    price = price_from_cents cents;
    size = size;
    filled_size = zero_f;
    filled_price = none;
    grid_level = pos 0;
    token_type = token;
    hedge_order_id = none;
    created_at = env.now;
    filled_at = none;
    canceled_at = none;
    is_entry_order = true;
    pair_order_id = none;
    status = pending;
    order_type = order_type;
    tick_size = "";
    neg_risk = none;
    skip_balance_check = false;
    bypass_risk_off = bypass;
    disable_size_adjust = false;
  }

  -- `none` is an error: no market, or an unknown token.
  unfoldable pub make_buy_order :
      Config → Env → Option Market → TokenType → ℤ → ℤ → String → F → Bool → Option Order
  unfolding buy_order clamp_cents
  make_buy_order c env none token target best_ask style size bypass = none
  make_buy_order c env (some m) token target best_ask style size bypass =
      if eq_token token no_token
      then none
      else if eq_text style "taker"
      then some (
          buy_order env m token (clamp_cents (add64 best_ask c.taker_offset_cents) (pos 1) (pos 99))
            "FAK" size bypass)
      else some (buy_order env m token target "GTC" size bypass)
