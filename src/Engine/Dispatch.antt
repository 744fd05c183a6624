-- ===== src/Engine/Dispatch.antt =====
-- internal/services/order_engine.go: handleCommand and the loop of Run.
use upcow.Base.{ℕ, suc, Option, none, some, List, [], ◌∷◌, ◌++◌}
use upcow.Base.Int.{ℤ, pos, add64}
use upcow.Base.Float.{Float}
use upcow.Domain.Order.{Order}
use upcow.Engine.State.{
  write, write_order, Engine, Env, Outcome, Command, place_order, cancel_order, update_order,
  process_trade, update_balance, create_position, update_position, close_position, query_state,
  reset_cycle, register_handler, query_stats, count_error,
}
use upcow.Engine.Place.{handle_place_order}
use upcow.Engine.Cancel.{handle_cancel_order}
use upcow.Engine.Update.{handle_update_order}
use upcow.Engine.Trades.{handle_process_trade}
use upcow.Engine.Positions.{
  handle_update_balance, handle_create_position, handle_update_position, handle_close_position,
  handle_register_handler, handle_reset_cycle,
}
use upcow.Engine.Query.{handle_query_state, handle_query_stats}

module _ ⦃fl : Float⦄ where
  -- The deferred `recover`: a handler that panicked counts as an error.
  unfoldable pub recover : Engine → Option Outcome → Outcome
  recover e none = (count_error e, [])
  recover e (some out) = out

  unfoldable pub handle_command : Env → Engine → Command → Outcome
  handle_command env e (place_order gen order) = handle_place_order env e gen order
  handle_command env e (cancel_order gen oid) = handle_cancel_order e gen oid
  handle_command env e (update_order id gen order error original) =
      handle_update_order env e id gen order error original
  handle_command env e (process_trade gen trade) = handle_process_trade env e gen trade
  handle_command env e (update_balance balance currency) = handle_update_balance e balance currency
  handle_command env e (create_position gen position) =
      recover e (handle_create_position e gen position)
  handle_command env e (update_position gen pid updater) = handle_update_position e gen pid updater
  handle_command env e (close_position gen pid exit_price exit_order) =
      handle_close_position env e gen pid exit_price exit_order
  handle_command env e (query_state query oid pid) = handle_query_state e query oid pid
  handle_command env e (reset_cycle new_generation) = handle_reset_cycle e new_generation
  handle_command env e (register_handler handler) = handle_register_handler e handler
  handle_command env e query_stats = handle_query_stats e

  -- One round of the loop in `Run`.
  unfoldable pub step : Env × Command → Engine → Outcome
  step (env, c) e =
      handle_command env (record e { stats = record stats { total_commands = counted } }) c
    where
      open e use {stats}

      counted : ℤ
      counted = add64 stats.total_commands (pos 1)

  -- What befalls the engine: its loop receives a command, with what the clock says then; another goroutine
  -- writes through a pointer to an order, as the executor on paper and the synchronisation do; or it makes one.
  pub data Event : Type 0 where
    received : Env → Command → Event
    assigned : (order : ℕ) (value : Order) → Event
    made : (value : Order) → Event

  unfoldable pub befall : Event → Engine → Outcome
  befall (received env c) e = step (env, c) e
  befall (assigned r o) e = (write_order e r o, [])
  befall (made o) e = (record e { heap = write e.heap e.next_ref o; next_ref = suc e.next_ref }, [])

  -- The loop of `Run`, and what other goroutines do between two of its rounds.
  unfoldable pub run : Engine → List Event → Outcome
  run e [] = (e, [])
  run e (x ∷ xs) = let (e', out) = befall x e in let (e'', more) = run e' xs in (e'', out ++ more)
