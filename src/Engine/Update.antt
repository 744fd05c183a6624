-- ===== src/Engine/Update.antt =====
-- internal/services/order_engine.go: handleUpdateOrder.
use upcow.Base.{
  ℕ, suc, String, not, ◌&&◌, ◌||◌, Option, none, some, List, [], ◌∷◌, ◌++◌, is_some, if◌then◌else◌,
}
use upcow.Base.Int.{ℤ, eq_int}
use upcow.Base.Text.{has_prefix, concat}
use upcow.Base.Dict.{lookup, insert, delete}
use upcow.Base.Float.{Float}
use upcow.Domain.Market.{is_empty, eq_text}
use upcow.Domain.Order.{Order, Time, filled, canceling, canceled, eq_status}
use upcow.Domain.Trade.{Trade}
use upcow.Engine.State.{
  Engine, Env, Outcome, Effect, submit, process_trade, write, write_order, count_processed_order,
  emit_order_update,
}
use upcow.Engine.Merge.{merge_order}
use upcow.Engine.Cancel.{cancel_failed, place_failed}

module _ ⦃fl : Float⦄ where
  open fl use {F, zero_f, lt_f}

  -- A successful cancel result turns `canceling` into `canceled`.
  unfoldable pub confirm_cancel : Env → String → Order → Order
  confirm_cancel env id order =
      if eq_status order.status canceling && has_prefix id "cancel_result_"
      then record order { status = canceled; canceled_at = some env.now }
      else order

  -- `cloneOrder`: a new object with the same contents, changed by `confirm_cancel`.
  unfoldable pub clone_in : Env → Engine → String → ℕ → Engine
  clone_in env e id r = record e {
    heap = write e.heap e.next_ref (confirm_cancel env id (e.heap r));
    next_ref = suc e.next_ref;
  }

  -- Merges the object `src` into `dst`, which takes over the id of `src`.
  unfoldable pub absorb : Env → Engine → ℕ → ℕ → Engine
  absorb env e dst src = write_order e dst (merge_order env.now renamed (e.heap src))
    where
      renamed : Order
      renamed = record (e.heap dst) { order_id = (e.heap src).order_id }

  unfoldable pub rekey_open : Env → Engine → String → ℕ → Option ℕ → Engine × ℕ
  rekey_open env e original n none = (e, n)
  rekey_open env e original n (some x) = (
    absorb env
        (record e {
          open_orders = delete original e.open_orders;
          order_store = delete original e.order_store;
        })
        x n,
    x,
  )

  -- The order that was placed under a local id moves to the id that the server gave.
  unfoldable pub rekey : Env → Engine → String → ℕ → Engine × ℕ
  rekey env e original n =
      if not (is_empty original) && not (eq_text original (e.heap n).order_id)
      then rekey_open env e original n (lookup original e.open_orders)
      else (e, n)

  unfoldable pub settle_open : Env → Engine → ℕ → Option ℕ → Engine × ℕ
  settle_open env e n none =
      (record e { open_orders = insert (e.heap n).order_id n e.open_orders }, n)
  settle_open env e n (some y) = (absorb env e y n, y)

  -- The open order of that id takes the news over; where there is none the new object is open.
  unfoldable pub settle : Env → Engine → ℕ → Engine × ℕ
  settle env e n = settle_open env e n (lookup (e.heap n).order_id e.open_orders)

  unfoldable pub store : Engine × ℕ → Engine × ℕ
  store (e, n) = (record e { order_store = insert (e.heap n).order_id n e.order_store }, n)

  -- `filledAt`: the order's own time of execution, or now.
  abbrev filled_time : Env → Option Time → Time
  filled_time env none = env.now
  filled_time env (some t) = t

  abbrev pub dry_run_trade_id : Order → String
  dry_run_trade_id order = concat "dry_run_trade_" order.order_id

  unfoldable pub dry_run_trade : Env → Order → Trade
  dry_run_trade env order = record {
    id = dry_run_trade_id order;
    order_id = order.order_id;
    taker_order_id = "";
    maker_order_ids = [];
    asset_id = order.asset_id;
    side = order.side;
    price = order.price;
    size = order.filled_size;
    token_type = order.token_type;
    market = none;
    time = filled_time env order.filled_at;
    fee = zero_f;
  }

  -- On paper a filled order is followed by a trade of the engine's own.
  unfoldable pub paper_trades : Env → Engine → ℤ → Order → List Effect
  paper_trades env e gen order =
      if eq_status order.status filled
        && e.dry_run
        && lt_f zero_f order.filled_size
        && not (is_some (lookup (dry_run_trade_id order) e.seen_trades))
      then submit (process_trade gen (some (dry_run_trade env order))) ∷ []
      else []

  -- A filled or canceled order leaves the open ones.
  unfoldable pub drop_closed : Engine → Order → Engine
  drop_closed e order =
      if eq_status order.status filled || eq_status order.status canceled
      then record e { open_orders = delete order.order_id e.open_orders }
      else e

  unfoldable pub finish_update : Env → ℤ → Engine × ℕ → Outcome
  finish_update env gen (e, n) = (
    count_processed_order (drop_closed e (e.heap n)),
    paper_trades env e gen (e.heap n) ++ emit_order_update e.order_handlers (e.heap n),
  )

  unfoldable pub settle_rekeyed : Env → Engine × ℕ → Engine × ℕ
  settle_rekeyed env (e, n) = settle env e n

  unfoldable pub update_succeeded : Env → Engine → String → ℤ → ℕ → String → Outcome
  update_succeeded env e id gen r original =
      finish_update env gen
        (store (settle_rekeyed env (rekey env (clone_in env e id r) original e.next_ref)))

  unfoldable pub update_current :
      Env → Engine → String → ℤ → Option ℕ → Option String → String → Outcome
  update_current env e id gen none none original = (e, [])
  update_current env e id gen none (some msg) original = (e, [])
  update_current env e id gen (some r) none original = update_succeeded env e id gen r original
  update_current env e id gen (some r) (some msg) original =
      if eq_status (e.heap r).status canceling then cancel_failed env e r msg else place_failed e r

  unfoldable pub handle_update_order :
      Env → Engine → String → ℤ → Option ℕ → Option String → String → Outcome
  handle_update_order env e id gen order error original =
      if eq_int gen e.generation then update_current env e id gen order error original else (e, [])
