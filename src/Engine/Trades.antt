-- ===== src/Engine/Trades.antt =====
-- internal/services/order_engine.go: handleProcessTrade and processPendingTrades.
use upcow.Base.{
  ℕ, zero, suc, Bool, not, ◌&&◌, Option, none, some, is_some, List, [], ◌∷◌, ◌++◌, length,
  if◌then◌else◌,
}
use upcow.Base.Int.{ℤ, eq_int}
use upcow.Base.Dict.{Dict, lookup, insert, delete}
use upcow.Base.Float.{Float}
use upcow.Domain.Price.{Price, to_decimal, price_from_decimal}
use upcow.Domain.Market.{is_empty}
use upcow.Domain.Order.{Order, partial, filled, eq_status}
use upcow.Domain.Trade.{Trade}
use upcow.Engine.State.{Engine, Env, Outcome, write_order, count_processed_trade, emit_order_update}
use upcow.Engine.Match.{Matched, match_trade}
use upcow.Engine.Book.{update_position_from_trade}

module _ ⦃fl : Float⦄ where
  open fl use {F, zero_f, add_f, sub_f, mul_f, div_f, lt_f, le_f}

  -- The average of the old price and the trade's, by size; `filled_size` is the new total.
  unfoldable pub average_price : F → Option Price → Trade → Price
  average_price filled_size none trade = trade.price
  average_price filled_size (some old) trade =
      if lt_f zero_f (sub_f filled_size trade.size)
      then price_from_decimal (div_f total_value filled_size)
      else trade.price
    where
      total_value : F
      total_value =
          add_f (mul_f (to_decimal old) (sub_f filled_size trade.size))
            (mul_f (to_decimal trade.price) trade.size)

  unfoldable pub fill_status : Env → Order → Order
  fill_status env order =
      if le_f order.size order.filled_size && lt_f zero_f order.size
      then record order { status = filled; filled_at = some env.now; filled_size = order.size }
      else record order { status = if eq_status order.status filled then filled else partial }

  unfoldable pub apply_fill : Env → Trade → Order → Order
  apply_fill env trade order =
      if lt_f zero_f trade.size
      then fill_status env (record order {
        filled_size = total;
        filled_price = some (average_price total order.filled_price trade);
      })
      else order
    where
      total : F
      total = add_f order.filled_size trade.size

  unfoldable pub drop_filled : Engine → Order → Engine
  drop_filled e order =
      if eq_status order.status filled
      then record e { open_orders = delete order.order_id e.open_orders }
      else e

  -- Steps 2 to 4 of the handler: the order, the open orders, the position.
  unfoldable pub book_trade : Env → Matched → Engine
  book_trade env m =
      update_position_from_trade (drop_filled (write_order m.engine m.order order) order) m.trade
        m.order
    where
      order : Order
      order = apply_fill env m.trade (m.engine.heap m.order)

  -- The pending trades whose order has come in, in the order of the map.
  unfoldable pub ready_trades : Engine → Dict Trade → List Trade
  ready_trades e [] = []
  ready_trades e ((k, t) ∷ m) =
      let rest = ready_trades e m in
      if is_some (lookup t.order_id e.order_store) then t ∷ rest else rest

  -- `handle` is the handler's call of itself.
  unfoldable pub replay : (Engine → Trade → Outcome) → Engine → List Trade → Outcome
  replay handle e [] = (e, [])
  replay handle e (t ∷ ts) =
      let (e', out) = handle (record e { pending_trades = delete t.id e.pending_trades }) t in
      let (e'', more) = replay handle e' ts in (e'', out ++ more)

  unfoldable pub process_pending_trades : (Engine → Trade → Outcome) → Engine → Outcome
  process_pending_trades handle e = replay handle e (ready_trades e e.pending_trades)

  -- Steps 5 and 6: the pending trades, then the callbacks with the order as it then is.
  unfoldable pub finish_trade : ℕ → Outcome → Outcome
  finish_trade r (e, out) =
      (count_processed_trade e, out ++ emit_order_update e.order_handlers (e.heap r))

  -- A trade id that was not seen yet is noted; the empty id is not.
  unfoldable pub mark_seen : Engine → Trade → Engine
  mark_seen e trade =
      if is_empty trade.id then e else record e { seen_trades = insert trade.id tt e.seen_trades }

  unfoldable pub is_seen : Engine → Trade → Bool
  is_seen e trade = not (is_empty trade.id) && is_some (lookup trade.id e.seen_trades)

  -- The handler after its guards, with fuel for the trades that it takes from the pending ones.
  unfoldable pub process_fuel : ℕ → Env → Engine → Trade → Outcome
  process_fuel zero env e trade = (e, [])
  process_fuel (suc fuel) env e trade =
      if is_seen e trade
      then (e, [])
      else finish_trade m.order
          (process_pending_trades (λ e' t. process_fuel fuel env e' t) (book_trade env m))
    where
      m : Matched
      m = match_trade (mark_seen e trade) trade

  -- A nested call comes from a trade that was pending, so the fuel is measured by their number.
  unfoldable pub process_current : Env → Engine → Option Trade → Outcome
  process_current env e none = (e, [])
  process_current env e (some trade) =
      process_fuel (suc (suc (length e.pending_trades))) env e trade

  unfoldable pub handle_process_trade : Env → Engine → ℤ → Option Trade → Outcome
  handle_process_trade env e gen trade =
      if eq_int gen e.generation then process_current env e trade else (e, [])
