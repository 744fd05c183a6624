-- ===== src/Engine/State.antt =====
-- internal/services/order_engine.go: the engine's state, its commands and what a handler sends out.
-- A handler takes the state to the new one and to the list of its effects, in their order.
use upcow.Base.{ℕ, String, Bool, Option, none, some, List, [], ◌∷◌, ◌==◌, if◌then◌else◌}
use upcow.Base.Int.{ℤ, pos, add64}
use upcow.Base.Dict.{Dict}
use upcow.Base.Float.{Float}
use upcow.Domain.Price.{Price}
use upcow.Domain.Order.{Order, Time}
use upcow.Domain.Trade.{Trade}
use upcow.Domain.Position.{Position}

pub record EngineStats : Type 0 where
  pub total_commands : ℤ
  pub processed_orders : ℤ
  pub processed_trades : ℤ
  pub errors : ℤ

-- What the clock says while a command is handled: `time.Now()`, and its nanoseconds as text.
pub record Env : Type 0 where
  pub now : Time
  pub stamp : String

pub data QueryType : Type 0 where
  all_orders open_orders_query all_positions open_positions balance_query order_query : QueryType
  position_query : QueryType

-- The errors that the engine makes, each with what its text prints.
pub data EngineError : Type 0 where
  stale : ℤ → ℤ → EngineError
  order_is_nil asset_id_empty size_not_positive price_not_positive : EngineError
  below_min_order_size insufficient_balance : EngineError
  already_filled order_missing : String → EngineError
  position_id_empty : EngineError
  position_exists position_missing position_is_closed : String → EngineError
  query_needs_order_id query_needs_position_id : EngineError

module _ ⦃fl : Float⦄ where
  open fl use {F}

  -- Orders are shared objects: the maps hold references into `heap`. A handler is `none` if nil.
  pub record Engine : Type 0 where
    pub balance : F
    pub positions : Dict Position
    pub open_orders : Dict ℕ
    pub order_store : Dict ℕ
    pub pending_trades : Dict Trade
    pub seen_trades : Dict (Unit {0})
    pub min_order_size : F
    pub dry_run : Bool
    pub order_handlers : List (Option ℕ)
    pub stats : EngineStats
    pub generation : ℤ
    pub heap : ℕ → Order
    pub next_ref : ℕ

  -- An error that an IO operation reports is its text.
  pub data Command : Type 0 where
    place_order : (gen : ℤ) (order : Option ℕ) → Command
    cancel_order : (gen : ℤ) (order_id : String) → Command
    update_order :
        (id : String) (gen : ℤ) (order : Option ℕ) (error : Option String)
        (original_order_id : String)
        → Command
    process_trade : (gen : ℤ) (trade : Option Trade) → Command
    update_balance : (balance : F) (currency : String) → Command
    create_position : (gen : ℤ) (position : Option Position) → Command
    update_position :
        (gen : ℤ) (position_id : String) (updater : Option (Position → Position)) → Command
    close_position :
        (gen : ℤ) (position_id : String) (exit_price : Price) (exit_order : Option ℕ) → Command
    query_state : (query : QueryType) (order_id position_id : String) → Command
    reset_cycle : (new_generation : ℤ) → Command
    register_handler : (handler : Option ℕ) → Command
    query_stats : Command

  -- Orders by reference; `error` is `none` where the source leaves it nil.
  pub record StateSnapshot : Type 0 where
    pub balance : F
    pub orders : List ℕ
    pub positions : List Position
    pub open_orders : List ℕ
    pub order : Option ℕ
    pub position : Option Position
    pub error : Option EngineError

  -- What a handler sends: a reply offered to the caller, an IO operation that a new goroutine runs,
  -- a callback on a registered handler, a command for the engine's own queue.
  pub data Effect : Type 0 where
    reply : (error : Option EngineError) → Effect
    reply_state : StateSnapshot → Effect
    reply_stats : EngineStats → Effect
    start_place : (order : ℕ) (gen : ℤ) → Effect
    start_cancel : (order_id : String) (gen : ℤ) → Effect
    notify : (handler : ℕ) (order : Order) → Effect
    submit : Command → Effect

  abbrev pub Outcome : Type 0
  Outcome = Engine × List Effect

  -- A write through the pointer `r`.
  abbrev pub write : (ℕ → Order) → ℕ → Order → ℕ → Order
  write heap r o q = if q == r then o else heap q

  abbrev pub write_order : Engine → ℕ → Order → Engine
  write_order e r o = record e { heap = write e.heap r o }

  unfoldable pub new_order_engine : (ℕ → Order) → ℕ → F → Bool → Engine
  new_order_engine heap next_ref min_order_size dry_run = record {
    balance = fl.zero_f;
    positions = [];
    open_orders = [];
    order_store = [];
    pending_trades = [];
    seen_trades = [];
    min_order_size = min_order_size;
    dry_run = dry_run;
    order_handlers = [];
    stats = record {
      total_commands = pos 0;
      processed_orders = pos 0;
      processed_trades = pos 0;
      errors = pos 0;
    };
    generation = pos 1;
    heap = heap;
    next_ref = next_ref;
  }

  abbrev pub count_error : Engine → Engine
  count_error e = record e { stats = record stats { errors = add64 stats.errors (pos 1) } }
    where
      open e use {stats}

  abbrev pub count_processed_order : Engine → Engine
  count_processed_order e = record e {
    stats = record stats { processed_orders = add64 stats.processed_orders (pos 1) };
  }
    where
      open e use {stats}

  abbrev pub count_processed_trade : Engine → Engine
  count_processed_trade e = record e {
    stats = record stats { processed_trades = add64 stats.processed_trades (pos 1) };
  }
    where
      open e use {stats}

  -- `emitOrderUpdate`: the handlers in the order of their registration, the nil ones left out.
  unfoldable pub emit_order_update : List (Option ℕ) → Order → List Effect
  emit_order_update [] order = []
  emit_order_update (none ∷ handlers) order = emit_order_update handlers order
  emit_order_update (some h ∷ handlers) order = notify h order ∷ emit_order_update handlers order
