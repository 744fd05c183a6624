-- ===== src/PairLock/SoundPlaced.antt =====
-- velocitypairlock/strategy.go: placePairAsync leaves a sound state.
use upcow.Base.{
  ℕ, String, Bool, true, false, not, ◌&&◌, ◌||◌, if◌then◌else◌, Bool-cases, inl, inr, List, Option,
  none, some, ◌≡◌, refl, arith,
}
use upcow.Base.Int.{pos, lt_int}
use upcow.Base.Float.{Float}
use upcow.Base.Text.{String_discrete}
use upcow.Domain.Price.{Price}
use upcow.Domain.Market.{Market, TokenType, up, down, eq_token, is_empty}
use upcow.Domain.Order.{Order}
use upcow.PairLock.Config.{Config}
use upcow.PairLock.State.{PairRuntime, Env, Effect, make_buy_order, reset_and_cool}
use upcow.PairLock.Orders.{Handled}
use upcow.PairLock.Placing.{
  Answer, SidePlan, primary_placed, both_placed, first_submitted, both_submitted, place_sequential,
  place_parallel, place_plan, place_pair_async, choose_plan, created_id, last_id_for, price_or_zero,
  cents_of, style_of, is_sequential, too_small, outside,
}
use upcow.PairLock.Sound.{IsSound, if-IsSound, reset_and_cool-IsSound}

module _ ⦃fl : Float⦄ where
  open fl use {F}

  primary_placed-IsSound :
      (c : Config) (env : Env) (m : Market) (p : SidePlan) (id : String) (rt : PairRuntime)
      → is_empty id ≡ false
      → IsSound (primary_placed c env m p id rt)
  unfolding primary_placed String_discrete
  primary_placed-IsSound c env m p id rt h = ground (arith, h)

  both_placed-IsSound :
      (c : Config) (env : Env) (m : Market) (p : SidePlan) (u d : String) (rt : PairRuntime)
      → is_empty u ≡ false
      → is_empty d ≡ false
      → IsSound (both_placed c env m p u d rt)
  unfolding both_placed
  both_placed-IsSound c env m p u d rt h k = ground (arith, h, k)

  first_submitted-IsSound :
      (c : Config) (env : Env) (m : Market) (p : SidePlan) (a : Answer) (rt : PairRuntime)
      (o : Option Order)
      → IsSound (first_submitted c env m p a rt o).0
  first_submitted-IsSound c env m p a rt none = reset_and_cool-IsSound c env rt
  first_submitted-IsSound c env m p a rt (some o) =
      if-IsSound c.decision_only _ _ (reset_and_cool-IsSound c env rt)
        (elim (Bool-cases (is_empty (created_id a))) [
          | inl unnamed ↦ ground (arith, unnamed, reset_and_cool-IsSound c env rt)
          | inr named ↦
              ground (arith, named, primary_placed-IsSound c env m p (created_id a) rt named)
        ])

  both_submitted-IsSound :
      (c : Config) (env : Env) (m : Market) (p : SidePlan) (a : Answer) (rt : PairRuntime)
      (u d : Option Order)
      → IsSound (both_submitted c env m p a rt u d).0
  both_submitted-IsSound c env m p a rt none d = reset_and_cool-IsSound c env rt
  both_submitted-IsSound c env m p a rt (some u) none = reset_and_cool-IsSound c env rt
  both_submitted-IsSound c env m p a rt (some u) (some d) =
      if-IsSound c.decision_only _ _ (reset_and_cool-IsSound c env rt) (
        if-IsSound a.has_failed _ _ (reset_and_cool-IsSound c env rt)
          (named_or_not (is_empty up_id) (is_empty down_id) _ _ refl refl))
    where
      up_id : String
      up_id = last_id_for m up "" a.created

      down_id : String
      down_id = last_id_for m down "" a.created

      named_or_not :
          (no_up no_down : Bool) (es fs : List Effect)
          → is_empty up_id ≡ no_up
          → is_empty down_id ≡ no_down
          → IsSound
              (if◌then◌else◌ {A = Handled}
                (no_up || no_down)
                (reset_and_cool c env rt, es)
                (both_placed c env m p up_id down_id rt, fs)).0
      named_or_not true no_down es fs e f = reset_and_cool-IsSound c env rt
      named_or_not false true es fs e f = reset_and_cool-IsSound c env rt
      named_or_not false false es fs e f = both_placed-IsSound c env m p up_id down_id rt e f

  place_plan-IsSound :
      (c : Config) (env : Env) (m : Market) (up_ask down_ask : Option Price) (a : Answer)
      (rt : PairRuntime) (p : Option SidePlan)
      → IsSound (place_plan c env m up_ask down_ask a rt p).0
  unfolding place_sequential place_parallel
  place_plan-IsSound c env m up_ask down_ask a rt none = reset_and_cool-IsSound c env rt
  place_plan-IsSound c env m up_ask down_ask a rt (some p) =
      if-IsSound
        (is_sequential c
          && outside c.sequential_primary_min_cents c.sequential_primary_max_cents p.primary_cents)
        _ _ (reset_and_cool-IsSound c env rt)
        (if-IsSound (too_small c (cents_of p up) || too_small c (cents_of p down)) _ _
          (reset_and_cool-IsSound c env rt)
          (if-IsSound (is_sequential c) _ _
            (first_submitted-IsSound c env m p a rt (
              make_buy_order c env (some m) p.primary_token p.primary_cents
                (price_or_zero (if eq_token p.primary_token down then down_ask else up_ask))
                c.primary_order_style c.order_size false))
            (both_submitted-IsSound c env m p a rt
              (make_buy_order c env (some m) up (cents_of p up) (price_or_zero up_ask)
                (style_of c p up) c.order_size false)
              (make_buy_order c env (some m) down (cents_of p down) (price_or_zero down_ask)
                (style_of c p down) c.order_size false))))

  pub place_pair_async-IsSound :
      (c : Config) (env : Env) (token : TokenType) (m : Option Market) (n : ℕ)
      (up_ask down_ask : Option Price) (a : Answer) (rt : PairRuntime)
      → IsSound (place_pair_async c env token m n up_ask down_ask a rt).0
  unfolding place_pair_async
  place_pair_async-IsSound c env token none n up_ask down_ask a rt = reset_and_cool-IsSound c env rt
  place_pair_async-IsSound c env token (some m) n up_ask down_ask a rt =
      if-IsSound (not env.has_executor || not env.has_service) _ _ (reset_and_cool-IsSound c env rt)
        (if-IsSound
          (lt_int (pos 0) c.max_open_orders_in_market && lt_int c.max_open_orders_in_market (pos n))
          _ _ (reset_and_cool-IsSound c env rt)
          (place_plan-IsSound c env m up_ask down_ask a rt (choose_plan c token up_ask down_ask)))
