-- ===== src/Engine/Replay.antt =====
-- internal/services/order_engine.go: handleProcessTrade where trades are pending.
use upcow.Base.{List, [], ◌∷◌, ◌≡◌, String, ◌⊎◌}
use upcow.Base.Dict.{Dict}
use upcow.Base.Float.{Float}
use upcow.Domain.Trade.{Trade}
use upcow.Engine.State.{Engine}

module _ ⦃fl : Float⦄ where
  -- Some trade of the list has the id.
  abbrev HasId : String → List Trade → Type 0
  HasId k [] = ⊥
  HasId k (t ∷ ts) = (t.id ≡ k) ⊎ HasId k ts
