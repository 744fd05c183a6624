-- ===== src/Domain/Trade.antt =====
-- internal/domain/trade.go.
use upcow.Base.{String, List, Option}
use upcow.Base.Float.{Float}
use upcow.Domain.Price.{Price}
use upcow.Domain.Market.{Market, TokenType, Side}
use upcow.Domain.Order.{Time}

module _ ⦃fl : Float⦄ where
  open fl use {F}

  pub record Trade : Type 0 where
    pub id : String
    pub order_id : String
    pub taker_order_id : String
    pub maker_order_ids : List String
    pub asset_id : String
    pub side : Side
    pub price : Price
    pub size : F
    pub token_type : TokenType
    pub market : Option Market
    pub time : Time
    pub fee : F

  -- The key by which trades are told apart.
  unfoldable pub key : Trade → String
  key t = t.id
