-- ===== src/Domain/Order.antt =====
-- internal/domain/order.go: Order, its status and the tests on it.
use upcow.Base.{
  ℕ, String, Bool, false, ◌&&◌, ◌||◌, ◌==◌, Option, none, some, is_some, if◌then◌else◌,
}
use upcow.Base.Int.{ℤ}
use upcow.Base.Float.{Float}
use upcow.Domain.Price.{Price}
use upcow.Domain.Market.{TokenType, Side}

-- A `time.Time`, in nanoseconds.
abbrev pub Time : Type 0
Time = ℕ

-- The type is a text. `opened` is "open", `no_status` the empty text, `other_status` one without a name.
-- Every test in the source compares with a named one.
pub data OrderStatus : Type 0 where
  no_status pending opened partial canceling filled canceled failed : OrderStatus
  other_status : String → OrderStatus

abbrev pub status_code : OrderStatus → ℕ
status_code no_status = 0
status_code pending = 1
status_code opened = 2
status_code partial = 3
status_code canceling = 4
status_code filled = 5
status_code canceled = 6
status_code failed = 7
status_code (other_status s) = 8

abbrev pub eq_status : OrderStatus → OrderStatus → Bool
eq_status s t = status_code s == status_code t

module _ ⦃fl : Float⦄ where
  open fl use {F, zero_f, lt_f}

  pub record Order : Type 0 where
    pub order_id : String
    pub market_slug : String
    pub asset_id : String
    pub side : Side
    pub price : Price
    pub size : F
    pub filled_size : F
    pub filled_price : Option Price
    pub grid_level : ℤ
    pub token_type : TokenType
    pub hedge_order_id : Option String
    pub created_at : Time
    pub filled_at : Option Time
    pub canceled_at : Option Time
    pub is_entry_order : Bool
    pub pair_order_id : Option String
    pub status : OrderStatus
    pub order_type : String
    pub tick_size : String
    pub neg_risk : Option Bool
    pub skip_balance_check : Bool
    pub bypass_risk_off : Bool
    pub disable_size_adjust : Bool

  unfoldable pub is_filled : Order → Bool
  is_filled o = eq_status o.status filled && is_some o.filled_at

  unfoldable pub is_partially_filled : Order → Bool
  is_partially_filled o =
      eq_status o.status partial && lt_f zero_f o.filled_size && lt_f o.filled_size o.size

  -- `none` is the nil receiver.
  unfoldable pub executed_size : Option Order → F
  executed_size none = zero_f
  executed_size (some o) = if lt_f zero_f o.filled_size then o.filled_size else o.size

  unfoldable pub is_open : Order → Bool
  is_open o = eq_status o.status opened

  unfoldable pub is_final_status : Order → Bool
  is_final_status o =
      eq_status o.status filled || eq_status o.status canceled || eq_status o.status failed

  unfoldable pub has_final_status_timestamp : Order → Bool
  has_final_status_timestamp o =
      if eq_status o.status filled
      then is_some o.filled_at
      else if eq_status o.status canceled
      then is_some o.canceled_at
      else false
