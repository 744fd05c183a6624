-- ===== src/PairLock/StopLimit.antt =====
-- velocitypairlock/strategy.go: how often the monitor replaces a hedge.
use upcow.Base.{
  ◌⊎◌, ℕ, String, Bool, true, false, not, ◌||◌, ◌+◌, ◌≤◌, if◌then◌else◌, Bool-cases, inl, inr, List,
  [], ◌∷◌, Option, none, some, ◌≡◌, arith,
}
use upcow.Base.Int.{ℤ}
use upcow.Base.Float.{Float}
use upcow.Domain.Price.{Price, to_cents}
use upcow.Domain.Market.{Market}
use upcow.PairLock.Config.{Config}
use upcow.PairLock.State.{PairRuntime, Env, Effect, StopLevel, stop_loss}
use upcow.PairLock.Orders.{Handled}
use upcow.PairLock.StopLoss.{
  StopAction, no_stop, risk_off, stop_at, level_code, is_open_hedge, stop_decision, note_stop,
  act_on, check_at, check_stop_loss_once,
}

module _ ⦃fl : Float⦄ where
  open fl use {F}

  abbrev is_stop : Effect → ℕ
  is_stop (stop_loss id token m cents order_type) = 1
  is_stop _ = 0

  -- How many of the effects replace a hedge.
  abbrev pub stops : List Effect → ℕ
  stops [] = 0
  stops (e ∷ es) = is_stop e + stops es

  -- The ticks of one monitor, one after another, and how many of them replace the hedge.
  unfoldable pub stops_in : Config → String → List (Env × Option Price) → PairRuntime → ℕ
  unfolding check_stop_loss_once
  stops_in c id [] rt = 0
  stops_in c id ((env, ask) ∷ ticks) rt =
      let r = check_stop_loss_once c env id ask rt in stops r.1 + stops_in c id ticks r.0

  -- An action pays with the level.
  abbrev Pays : PairRuntime → Handled → Type 0
  Pays rt r = stops r.1 + level_code rt.stop_level ≤ level_code r.0.stop_level

  abbrev Rises : StopLevel → StopAction → Type 0
  Rises level no_stop = level_code level ≤ 2
  Rises level risk_off = level_code level ≤ 2
  Rises level (stop_at new cents order_type) = level_code level + 1 ≤ level_code new

  decision-Rises :
      (c : Config) (level : StopLevel) (fill ask : ℤ) → Rises level (stop_decision c level fill ask)
  unfolding stop_decision
  decision-Rises c level fill ask = ground arith

  act_on-Pays :
      (id : String) (m : Market) (rt : PairRuntime) (x : StopAction)
      → is_open_hedge id rt ≡ true
      → Rises rt.stop_level x
      → Pays rt (act_on id m rt x)
  unfolding note_stop
  act_on-Pays id m rt no_stop h r = omega arith
  act_on-Pays id m rt risk_off h r = omega arith
  act_on-Pays id m rt (stop_at level cents order_type) h r = ground (arith, h, r)

  check-Pays :
      (c : Config) (env : Env) (id : String) (ask : Option Price) (rt : PairRuntime)
      → Pays rt (check_stop_loss_once c env id ask rt)
  unfolding check_stop_loss_once
  check-Pays c env id ask rt =
      checked (not env.has_service) (Bool-cases (is_open_hedge id rt)) rt.hedge_filled rt.market ask
    where
      at_quote :
          is_open_hedge id rt ≡ true
          → (m : Option Market) (ask : Option Price) → Pays rt (check_at c id m ask rt)
      at_quote h none ask = omega arith
      at_quote h (some m) none = omega arith
      at_quote h (some m) (some p) = ground (
        arith,
        act_on-Pays id m rt (stop_decision c rt.stop_level rt.primary_fill_cents (to_cents p)) h
            (decision-Rises c rt.stop_level rt.primary_fill_cents (to_cents p)),
      )

      checked :
          (absent : Bool)
          → (is_open_hedge id rt ≡ true) ⊎ (is_open_hedge id rt ≡ false)
          → (done : Bool) (m : Option Market) (ask : Option Price)
          → Pays rt (
              if◌then◌else◌ {A = Handled}
                (absent || not (is_open_hedge id rt) || done)
                (rt, [])
                (check_at c id m ask rt))
      checked true h done m ask = omega arith
      checked false (inl h) true m ask = ground (arith, h)
      checked false (inl h) false m ask = ground (arith, h, at_quote h m ask)
      checked false (inr h) done m ask = ground (arith, h)

  level-le : (l : StopLevel) → level_code l ≤ 2
  level-le l = ground arith

  stops-budget :
      (c : Config) (id : String) (ticks : List (Env × Option Price)) (rt : PairRuntime)
      → stops_in c id ticks rt + level_code rt.stop_level ≤ 2
  unfolding stops_in
  stops-budget c id [] rt = omega (arith, level-le rt.stop_level)
  stops-budget c id ((env, ask) ∷ ticks) rt =
      let r : Handled = check_stop_loss_once c env id ask rt in
      omega (arith, check-Pays c env id ask rt, stops-budget c id ticks r.0)

  -- Any ticks of one hedge's monitor, one after another and from any state, replace the hedge no
  -- more than twice.
  pub stops_in-le :
      (c : Config) (id : String) (ticks : List (Env × Option Price)) (rt : PairRuntime)
      → stops_in c id ticks rt ≤ 2
  stops_in-le c id ticks rt = omega (arith, stops-budget c id ticks rt)
