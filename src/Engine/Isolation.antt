-- ===== src/Engine/Isolation.antt =====
-- internal/services/order_engine.go: a command that carries another generation than the engine's.
use upcow.Base.{false, Option, none, some, [], ◌∷◌, ◌≡◌, ◌≢◌, arith, ◌⊎◌}
use upcow.Base.Int.{ℤ, eq_int}
use upcow.Base.Float.{Float}
use upcow.Engine.State.{
  Engine, Env, Outcome, Command, place_order, cancel_order, update_order, process_trade,
  update_balance, create_position, update_position, close_position, query_state, reset_cycle,
  register_handler, query_stats, count_error, reply, stale,
}
use upcow.Engine.Place.{handle_place_order}
use upcow.Engine.Cancel.{handle_cancel_order}
use upcow.Engine.Update.{handle_update_order}
use upcow.Engine.Trades.{handle_process_trade}
use upcow.Engine.Positions.{handle_create_position, handle_update_position, handle_close_position}
use upcow.Engine.Dispatch.{handle_command, recover}

eq_int-ne : (a b : ℤ) → a ≢ b → eq_int a b ≡ false
eq_int-ne a b h = ground arith

module _ ⦃fl : Float⦄ where
  -- The generation that a command carries; the others act on the account, not on a cycle.
  abbrev pub generation_of : Command → Option ℤ
  generation_of (place_order gen order) = some gen
  generation_of (cancel_order gen oid) = some gen
  generation_of (update_order id gen order error original) = some gen
  generation_of (process_trade gen trade) = some gen
  generation_of (update_balance balance currency) = none
  generation_of (create_position gen position) = some gen
  generation_of (update_position gen pid updater) = some gen
  generation_of (close_position gen pid exit_price exit_order) = some gen
  generation_of (query_state query oid pid) = none
  generation_of (reset_cycle new_generation) = none
  generation_of (register_handler handler) = none
  generation_of query_stats = none

  -- What a stale command does: at most an error counted and a refusal sent back.
  abbrev pub IsDropped : Engine → ℤ → Outcome → Type 0
  IsDropped e gen (e', out) =
      ((e' ≡ e) ⊎ (e' ≡ count_error e))
      × ((out ≡ []) ⊎ (out ≡ reply (some (stale gen e.generation)) ∷ []))

  -- A command that carries another generation than the engine's changes nothing but the count of
  -- errors, and has no effect but a reply that refuses it.
  pub handle_command-IsDropped :
      (env : Env) (e : Engine) (c : Command) (gen : ℤ)
      → generation_of c ≡ some gen
      → gen ≢ e.generation
      → IsDropped e gen (handle_command env e c)
  unfolding handle_command handle_place_order handle_cancel_order handle_update_order
      handle_process_trade handle_create_position handle_update_position handle_close_position
      recover
  handle_command-IsDropped env e (place_order g order) gen h n =
      ground (arith, eq_int-ne g e.generation)
  handle_command-IsDropped env e c gen h n = ground (arith, eq_int-ne gen e.generation)
