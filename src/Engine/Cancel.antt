-- ===== src/Engine/Cancel.antt =====
-- internal/services/order_engine.go: handleCancelOrder, and the two ways in which a cancel or a
-- place operation that failed comes back into handleUpdateOrder.
use upcow.Base.{ℕ, String, Bool, false, ◌++◌, ◌||◌, Option, none, some, [], ◌∷◌, if◌then◌else◌}
use upcow.Base.Int.{ℤ, eq_int}
use upcow.Base.Text.{contains, lower_contains}
use upcow.Base.Dict.{lookup, insert, delete}
use upcow.Base.Float.{Float}
use upcow.Domain.Order.{Order, OrderStatus, opened, filled, canceling, canceled, failed, eq_status}
use upcow.Engine.State.{
  Engine, Env, Outcome, reply, start_cancel, EngineError, stale, already_filled, order_missing,
  count_error, write_order, emit_order_update,
}
use upcow.Engine.Place.{order_amount}

-- `isNonCancelableCancelError` of an error's text; `none` is the nil error.
unfoldable pub is_non_cancelable_cancel_error : Option String → Bool
is_non_cancelable_cancel_error none = false
is_non_cancelable_cancel_error (some msg) =
    contains msg "Invalid order payload"
    || contains msg "HTTP 错误 400"
    || lower_contains msg "invalid order payload"

module _ ⦃fl : Float⦄ where
  open fl use {F, add_f}

  -- The reply for an order that is not open, by its stored status.
  unfoldable pub refuse_stored : String → OrderStatus → Option EngineError
  refuse_stored oid status =
      if eq_status status filled
      then some (already_filled oid)
      else if eq_status status canceled
      then none
      else some (order_missing oid)

  unfoldable pub refuse_cancel : Engine → String → Option ℕ → Option EngineError
  refuse_cancel e oid none = some (order_missing oid)
  refuse_cancel e oid (some r) = refuse_stored oid (e.heap r).status

  unfoldable pub begin_cancel : Engine → ℤ → String → ℕ → Outcome
  begin_cancel e gen oid r = (
    record written { order_store = insert order.order_id r e.order_store },
    emit_order_update e.order_handlers order ++ start_cancel oid gen ∷ [],
  )
    where
      order : Order
      order = record (e.heap r) { status = canceling }

      written : Engine
      written = write_order e r order

  unfoldable pub cancel_current : Engine → ℤ → String → Option ℕ → Outcome
  cancel_current e gen oid none = (e, reply (refuse_cancel e oid (lookup oid e.order_store)) ∷ [])
  cancel_current e gen oid (some r) = begin_cancel e gen oid r

  unfoldable pub handle_cancel_order : Engine → ℤ → String → Outcome
  handle_cancel_order e gen oid =
      if eq_int gen e.generation
      then cancel_current e gen oid (lookup oid e.open_orders)
      else (count_error e, reply (some (stale gen e.generation)) ∷ [])

  -- The order cannot be canceled any more: it leaves the open ones as canceled.
  unfoldable pub settle_as_canceled : Env → Engine → ℕ → Outcome
  settle_as_canceled env e r = (
    count_error (record written {
      order_store = insert order.order_id r e.order_store;
      open_orders = delete order.order_id e.open_orders;
    }),
    emit_order_update e.order_handlers order,
  )
    where
      order : Order
      order = record (e.heap r) { status = canceled; canceled_at = some env.now }

      written : Engine
      written = write_order e r order

  -- The cancel failed: the order is open again.
  unfoldable pub reopen : Engine → ℕ → Outcome
  reopen e r = (
    count_error (record written { order_store = insert order.order_id r e.order_store }),
    emit_order_update e.order_handlers order,
  )
    where
      order : Order
      order = record (e.heap r) { status = opened }

      written : Engine
      written = write_order e r order

  unfoldable pub cancel_failed_open : Env → Engine → String → Option ℕ → Outcome
  cancel_failed_open env e msg none = (count_error e, [])
  cancel_failed_open env e msg (some r) =
      if is_non_cancelable_cancel_error (some msg)
      then settle_as_canceled env e r
      else if eq_status (e.heap r).status canceling
      then reopen e r
      else (count_error e, [])

  -- A cancel's result with an error; `r` is the result's order.
  unfoldable pub cancel_failed : Env → Engine → ℕ → String → Outcome
  cancel_failed env e r msg =
      cancel_failed_open env e msg (lookup (e.heap r).order_id e.open_orders)

  abbrev mark_failed : Engine → ℕ → Engine
  mark_failed e r = write_order e r (record (e.heap r) { status = failed })

  -- What is left to do once the order `r` of the command is marked; `oid` is its id.
  unfoldable pub place_failed_open : Engine → String → ℕ → Option ℕ → Outcome
  place_failed_open e oid r none = (
    record e { order_store = insert (e.heap r).order_id r e.order_store },
    emit_order_update e.order_handlers (e.heap r),
  )
  place_failed_open e oid r (some x) = (
    record marked {
      balance = add_f e.balance (order_amount (e.heap x));
      open_orders = delete oid e.open_orders;
      order_store = insert (marked.heap x).order_id x e.order_store;
    },
    emit_order_update e.order_handlers (marked.heap x),
  )
    where
      marked : Engine
      marked = mark_failed e x

  -- Any other operation that failed.
  unfoldable pub place_failed : Engine → ℕ → Outcome
  place_failed e r =
      place_failed_open marked (marked.heap r).order_id r
        (lookup (marked.heap r).order_id e.open_orders)
    where
      marked : Engine
      marked = mark_failed e r
