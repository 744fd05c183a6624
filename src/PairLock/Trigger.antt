-- ===== src/PairLock/Trigger.antt =====
-- velocitypairlock/strategy.go: OnPriceChanged with its choice of the first leg.
use upcow.Base.{
  Bool, false, not, ◌&&◌, ◌+◌, ◌*◌, List, [], ◌∷◌, Option, none, some, is_some, if◌then◌else◌, ltb,
  leb,
}
use upcow.Base.Int.{ℤ, pos, negsuc, lt_int, le_int, pos_part}
use upcow.Base.Float.{Float}
use upcow.Domain.Price.{Price, to_cents}
use upcow.Domain.Market.{Market, TokenType, no_token, up, down, eq_text}
use upcow.Domain.Order.{Time}
use upcow.PairLock.Config.{Config}
use upcow.PairLock.Velocity.{
  VelocityTracker, Velocity, new_velocity_tracker, add, velocity_cents_per_sec,
}
use upcow.PairLock.State.{PairRuntime, Env, Effect, idle, placing, eq_phase, place_pair}

module _ ⦃fl : Float⦄ where
  open fl use {F, zero_f, lt_f, le_f, sub_f, mul_f, div_f, of_int}

  -- The strategy's two trackers, absent before the first use, and its state.
  pub record State : Type 0 where
    pub up_vel : Option VelocityTracker
    pub down_vel : Option VelocityTracker
    pub rt : PairRuntime

  abbrev abs_f : F → F
  abs_f x = if lt_f x zero_f then sub_f zero_f x else x

  abbrev abs_int : ℤ → ℤ
  abs_int (pos n) = pos n
  abs_int (negsuc n) = pos (n + 1)

  -- A velocity that is high enough, or `none`.
  abbrev is_hit : Config → Velocity → Bool
  is_hit c v =
      not (lt_int (pos 0) c.min_move_cents && lt_int (abs_int v.move) c.min_move_cents)
      && not (
          lt_f (if eq_text c.velocity_direction_mode "abs" then abs_f v.velocity else v.velocity)
            c.min_velocity_cents_per_sec)

  abbrev hit_of : Config → Option Velocity → Option F
  hit_of c none = none
  hit_of c (some v) = if is_hit c v then some v.velocity else none

  unfoldable pub velocity_hit : Config → Option VelocityTracker → Option F
  unfolding velocity_cents_per_sec
  velocity_hit c none = none
  velocity_hit c (some t) = hit_of c (velocity_cents_per_sec t)

  abbrev faster : Option F → Option F → Option TokenType
  faster none none = none
  faster (some u) none = some up
  faster none (some d) = some down
  faster (some u) (some d) = if le_f d u then some up else some down

  unfoldable pub pick_primary_by_velocity : Config → State → Option TokenType
  unfolding velocity_hit
  pick_primary_by_velocity c s = faster (velocity_hit c s.up_vel) (velocity_hit c s.down_vel)

  -- In nanoseconds, the market's timestamp in seconds.
  abbrev ends_within : Config → Env → Market → Bool
  ends_within c env m =
      lt_int (pos 0) m.timestamp
      && leb (pos_part m.timestamp * 1_000_000_000 + env.cycle_duration)
          (env.now + pos_part c.cycle_end_protection_minutes * 60_000_000_000)

  abbrev market_ends : Config → Env → Option Market → Bool
  market_ends c env none = false
  market_ends c env (some m) = ends_within c env m

  unfoldable pub is_in_cycle_end_protection : Config → Env → PairRuntime → Bool
  is_in_cycle_end_protection c env rt =
      lt_int (pos 0) c.cycle_end_protection_minutes && market_ends c env rt.market

  pub record PriceChangedEvent : Type 0 where
    pub market : Option Market
    pub token_type : TokenType
    pub new_price : Price
    pub timestamp : Option Time

  abbrev in_cooldown : Env → Option Time → Bool
  in_cooldown env none = false
  in_cooldown env (some t) = ltb env.now t

  -- The gates in front of a new pair.
  unfoldable pub may_start : Config → Env → PairRuntime → Bool
  unfolding is_in_cycle_end_protection
  may_start c env rt =
      eq_phase rt.phase idle
      && not (in_cooldown env rt.cooldown_until)
      && not (
          lt_int (pos 0) c.max_trades_per_cycle
          && le_int c.max_trades_per_cycle rt.trades_this_cycle)
      && not (is_in_cycle_end_protection c env rt)

  abbrev pub new_trackers : Config → State → State
  new_trackers c s = if is_some s.up_vel && is_some s.down_vel then s else record s {
    up_vel = some (new_velocity_tracker c.window_seconds);
    down_vel = some (new_velocity_tracker c.window_seconds);
  }

  abbrev pub added : Env → Option Time → ℤ → Option VelocityTracker → Option VelocityTracker
  added env at cents none = none
  added env at cents (some t) = some (add env.now at cents t)

  abbrev pub started : Config → Env → Option Market → Option TokenType → State → State × List Effect
  started c env market none s = (s, [])
  started c env market (some token) s =
      if may_start c env s.rt
      then (record s { rt = record s.rt { phase = placing } }, place_pair token market ∷ [])
      else (s, [])

  abbrev pub tracked : Config → Env → PriceChangedEvent → TokenType → State → State × List Effect
  tracked c env ev no_token s = (s, [])
  tracked c env ev up s =
      let s' = record s { up_vel = added env ev.timestamp (to_cents ev.new_price) s.up_vel } in
      started c env ev.market (pick_primary_by_velocity c s') s'
  tracked c env ev down s =
      let s' = record s { down_vel = added env ev.timestamp (to_cents ev.new_price) s.down_vel } in
      started c env ev.market (pick_primary_by_velocity c s') s'

  -- `none` is a nil event.
  unfoldable pub on_price_changed :
      Config → Env → Option PriceChangedEvent → State → State × List Effect
  unfolding new_velocity_tracker add to_cents pick_primary_by_velocity may_start
  on_price_changed c env none s = (s, [])
  on_price_changed c env (some ev) s =
      if c.enabled && is_some ev.market
      then tracked c env ev ev.token_type
          (record (new_trackers c s) { rt = record s.rt { market = ev.market } })
      else (s, [])
