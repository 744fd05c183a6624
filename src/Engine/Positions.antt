-- ===== src/Engine/Positions.antt =====
-- internal/services/order_engine.go: the handlers of balance, positions, reset and registration.
use upcow.Base.{String, ◌||◌, Option, none, some, [], ◌∷◌, ◌++◌, ℕ, not, is_some, if◌then◌else◌}
use upcow.Base.Int.{ℤ, pos, eq_int, lt_int, add64}
use upcow.Base.Dict.{lookup, insert}
use upcow.Base.Float.{Float}
use upcow.Domain.Price.{Price}
use upcow.Domain.Market.{eq_text, is_empty}
use upcow.Domain.Position.{Position, open_position, closed_position, is_open}
use upcow.Engine.State.{
  Engine, Env, Outcome, reply, EngineError, stale, position_id_empty, position_exists,
  position_missing, position_is_closed,
}

module _ ⦃fl : Float⦄ where
  open fl use {F}

  abbrev pub refuse : Engine → EngineError → Outcome
  refuse e err = (e, reply (some err) ∷ [])

  unfoldable pub handle_update_balance : Engine → F → String → Outcome
  handle_update_balance e balance currency = (
    if eq_text currency "USDC" || is_empty currency then record e { balance = balance } else e,
    reply none ∷ [],
  )

  unfoldable pub create_fresh : Engine → Position → Outcome
  create_fresh e p =
      if is_empty p.id
      then refuse e position_id_empty
      else if is_some (lookup p.id e.positions)
      then refuse e (position_exists p.id)
      else (
        record e { positions = insert p.id (record p { status = open_position }) e.positions },
        reply none ∷ [],
      )

  -- `none` is the panic at a nil position.
  unfoldable pub create_current : Engine → Option Position → Option Outcome
  create_current e none = none
  create_current e (some p) = some (create_fresh e p)

  unfoldable pub handle_create_position : Engine → ℤ → Option Position → Option Outcome
  handle_create_position e gen position =
      if eq_int gen e.generation
      then create_current e position
      else some (refuse e (stale gen e.generation))

  abbrev run_updater : Option (Position → Position) → Position → Position
  run_updater none p = p
  run_updater (some updater) p = updater p

  unfoldable pub update_found :
      Engine → String → Option (Position → Position) → Option Position → Outcome
  update_found e pid updater none = refuse e (position_missing pid)
  update_found e pid updater (some p) =
      (record e { positions = insert pid (run_updater updater p) e.positions }, reply none ∷ [])

  unfoldable pub handle_update_position :
      Engine → ℤ → String → Option (Position → Position) → Outcome
  handle_update_position e gen pid updater =
      if eq_int gen e.generation
      then update_found e pid updater (lookup pid e.positions)
      else refuse e (stale gen e.generation)

  unfoldable pub close_found : Env → Engine → String → Price → Option ℕ → Option Position → Outcome
  close_found env e pid exit_price exit_order none = refuse e (position_missing pid)
  close_found env e pid exit_price exit_order (some p) =
      if not (is_open p)
      then refuse e (position_is_closed pid)
      else (record e { positions = insert pid closed e.positions }, reply none ∷ [])
    where
      closed : Position
      closed = record p {
        exit_price = some exit_price;
        exit_time = some env.now;
        exit_order = exit_order;
        status = closed_position;
      }

  unfoldable pub handle_close_position : Env → Engine → ℤ → String → Price → Option ℕ → Outcome
  handle_close_position env e gen pid exit_price exit_order =
      if eq_int gen e.generation
      then close_found env e pid exit_price exit_order (lookup pid e.positions)
      else refuse e (stale gen e.generation)

  unfoldable pub handle_register_handler : Engine → Option ℕ → Outcome
  handle_register_handler e handler =
      (record e { order_handlers = e.order_handlers ++ handler ∷ [] }, [])

  unfoldable pub handle_reset_cycle : Engine → ℤ → Outcome
  handle_reset_cycle e new_generation = (
    record e {
      positions = [];
      open_orders = [];
      order_store = [];
      pending_trades = [];
      seen_trades = [];
      generation =
          if lt_int (pos 0) new_generation then new_generation else add64 e.generation (pos 1);
    },
    reply none ∷ [],
  )
