-- ===== src/Engine/Place.antt =====
-- internal/services/order_engine.go: validatePlaceOrder and handlePlaceOrder.
use upcow.Base.{ℕ, String, Bool, not, ◌&&◌, Option, none, some, [], ◌∷◌, if◌then◌else◌}
use upcow.Base.Int.{ℤ, pos, eq_int, le_int}
use upcow.Base.Dict.{insert}
use upcow.Base.Float.{Float}
use upcow.Base.Text.{concat}
use upcow.Domain.Price.{to_decimal}
use upcow.Domain.Market.{buy, eq_side, is_empty}
use upcow.Domain.Order.{Order, pending}
use upcow.Engine.State.{
  Engine, Env, Outcome, reply, start_place, EngineError, stale, order_is_nil, asset_id_empty,
  size_not_positive, price_not_positive, below_min_order_size, insufficient_balance, count_error,
  write_order,
}

module _ ⦃fl : Float⦄ where
  open fl use {F, zero_f, sub_f, mul_f, lt_f, le_f}

  -- The order's price times its size.
  unfoldable pub order_amount : Order → F
  order_amount order = mul_f (to_decimal order.price) order.size

  unfoldable pub validate_fields : Engine → Order → Option EngineError
  validate_fields e order =
      if is_empty order.asset_id
      then some asset_id_empty
      else if le_f order.size zero_f
      then some size_not_positive
      else if le_int order.price.pips (pos 0)
      then some price_not_positive
      else if lt_f (order_amount order) e.min_order_size
      then some below_min_order_size
      else none

  -- `cmd.Order` as a value, `none` if nil.
  unfoldable pub validate_place_order : Engine → Option Order → Option EngineError
  validate_place_order e none = some order_is_nil
  validate_place_order e (some order) = validate_fields e order

  unfoldable pub lacks_balance : Engine → Order → Bool
  lacks_balance e order =
      not e.dry_run
      && eq_side order.side buy
      && not order.skip_balance_check
      && lt_f e.balance (order_amount order)

  -- The balance with the money for a purchase set aside.
  unfoldable pub reserved : Engine → Order → F
  reserved e order =
      if not e.dry_run && eq_side order.side buy
      then sub_f e.balance (order_amount order)
      else e.balance

  abbrev pub with_order_id : Env → String → String
  with_order_id env id = if is_empty id then concat "order_" env.stamp else id

  -- The order as it is written back: a pending one, with an id.
  abbrev pub as_pending : Env → Order → Order
  as_pending env order = record order {
    order_id = with_order_id env order.order_id;
    status = pending;
    created_at = env.now;
  }

  unfoldable pub accept_order : Env → Engine → ℤ → ℕ → Outcome
  accept_order env e gen r = (
    record e {
      balance = reserved e order;
      heap = written.heap;
      open_orders = insert accepted.order_id r e.open_orders;
      order_store = insert accepted.order_id r e.order_store;
    },
    start_place r gen ∷ [],
  )
    where
      order : Order
      order = e.heap r

      accepted : Order
      accepted = as_pending env order

      written : Engine
      written = write_order e r accepted

  unfoldable pub place_valid : Env → Engine → ℤ → ℕ → Option EngineError → Outcome
  place_valid env e gen r (some err) = (e, reply (some err) ∷ [])
  place_valid env e gen r none =
      if lacks_balance e (e.heap r)
      then (e, reply (some insufficient_balance) ∷ [])
      else accept_order env e gen r

  unfoldable pub place_current : Env → Engine → ℤ → Option ℕ → Outcome
  place_current env e gen none = (e, reply (validate_place_order e none) ∷ [])
  place_current env e gen (some r) =
      place_valid env e gen r (validate_place_order e (some (e.heap r)))

  unfoldable pub handle_place_order : Env → Engine → ℤ → Option ℕ → Outcome
  handle_place_order env e gen order =
      if eq_int gen e.generation
      then place_current env e gen order
      else (count_error e, reply (some (stale gen e.generation)) ∷ [])
