-- ===== src/Domain/Position.antt =====
-- internal/domain/position.go: Position and its cost basis. An order that a position points to is a
-- reference into the heap of orders.
use upcow.Base.{ℕ, String, Bool, true, false, ◌&&◌, Option, none, some, if◌then◌else◌}
use upcow.Base.Int.{ℤ, pos, eq_int, lt_int, sub64}
use upcow.Base.Float.{Float}
use upcow.Domain.Price.{Price, to_decimal, to_cents}
use upcow.Domain.Market.{Market, TokenType, up, eq_token}
use upcow.Domain.Order.{Time, Order, is_filled}

pub data PositionStatus : Type 0 where
  open_position closed_position : PositionStatus

abbrev pub is_open_status : PositionStatus → Bool
is_open_status open_position = true
is_open_status closed_position = false

module _ ⦃fl : Float⦄ where
  open fl use {F, zero_f, add_f, sub_f, mul_f, div_f, lt_f, le_f, of_int, trunc_int}

  pub record Position : Type 0 where
    pub id : String
    pub market_slug : String
    pub market : Option Market
    pub entry_order : Option ℕ
    pub hedge_order : Option ℕ
    pub entry_price : Price
    pub entry_time : Time
    pub exit_order : Option ℕ
    pub exit_price : Option Price
    pub exit_time : Option Time
    pub size : F
    pub token_type : TokenType
    pub status : PositionStatus
    pub unhedged : Bool
    pub cost_basis : F
    pub avg_price : F
    pub total_filled_size : F

  unfoldable pub is_open : Position → Bool
  is_open p = is_open_status p.status

  abbrev points_to_filled : (ℕ → Order) → Option ℕ → Bool
  points_to_filled heap none = false
  points_to_filled heap (some r) = is_filled (heap r)

  unfoldable pub is_hedged : (ℕ → Order) → Position → Bool
  is_hedged heap p = points_to_filled heap p.entry_order && points_to_filled heap p.hedge_order

  unfoldable pub add_fill : Position → F → Price → Position
  add_fill p size price = if le_f size zero_f then p else record p {
    cost_basis = cost_basis;
    total_filled_size = total;
    avg_price = if lt_f zero_f total then div_f cost_basis total else p.avg_price;
    entry_price = if eq_int p.entry_price.pips (pos 0) then price else p.entry_price;
  }
    where
      cost_basis : F
      cost_basis = add_f p.cost_basis (mul_f (to_decimal price) size)

      total : F
      total = add_f p.total_filled_size size

  unfoldable pub unrealized_pnl : Position → Price → F
  unrealized_pnl p current_price =
      if le_f p.total_filled_size zero_f
      then zero_f
      else sub_f (mul_f (to_decimal current_price) p.total_filled_size) p.cost_basis

  abbrev pnl_at_exit : Position → Option Price → F
  pnl_at_exit p none = zero_f
  pnl_at_exit p (some exit_price) =
      if le_f p.total_filled_size zero_f
      then zero_f
      else sub_f (mul_f (to_decimal exit_price) p.total_filled_size) p.cost_basis

  unfoldable pub realized_pnl : Position → F
  realized_pnl p = pnl_at_exit p p.exit_price

  -- Cents, by the cost basis where there is one, by the entry price otherwise.
  abbrev profit_against : Position → Price → F → ℤ
  profit_against p price pnl =
      if lt_f zero_f p.total_filled_size && lt_f zero_f p.cost_basis
      then trunc_int (mul_f pnl (of_int (pos 100)))
      else if eq_token p.token_type up
      then sub64 (to_cents price) (to_cents p.entry_price)
      else sub64 (to_cents p.entry_price) (to_cents price)

  abbrev profit_by : Position → Price → Option Price → ℤ
  profit_by p current_price none = profit_against p current_price (unrealized_pnl p current_price)
  profit_by p current_price (some exit_price) = profit_against p exit_price (realized_pnl p)

  unfoldable pub calculate_profit : Position → Price → ℤ
  calculate_profit p current_price = profit_by p current_price p.exit_price

  unfoldable pub calculate_loss : Position → Price → ℤ
  calculate_loss p current_price = if lt_int profit (pos 0) then sub64 (pos 0) profit else pos 0
    where
      profit : ℤ
      profit = calculate_profit p current_price
