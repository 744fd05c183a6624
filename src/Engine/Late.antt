-- ===== src/Engine/Late.antt =====
-- internal/services/order_engine.go: news about an order that is not open any more, and the change of
-- cycle.
use upcow.Base.{
  ℕ, String, true, none, some, ◌≡◌, ◌≢◌, refl, sym, arith, if◌then◌else◌, ◌<◌, false, [], ◌∷◌, ◌∙◌,
}
use upcow.Base.Int.{ℤ, pos, eq_int, lt_int, add64}
use upcow.Base.Dict.{lookup, lookup-insert}
use upcow.Base.Float.{Float}
use upcow.Base.Text.{String_discrete, has_prefix}
use upcow.Domain.Market.{is_empty}
use upcow.Domain.Order.{Order, partial, canceled, is_final_status}
use upcow.Engine.Merge.{merge_order, merge_fields, converge, is_fully_executed, partial_status}
use upcow.Engine.State.{Engine, Env, Command, update_order, reset_cycle, write_order}
use upcow.Engine.Update.{confirm_cancel}
use upcow.Engine.Dispatch.{handle_command, step, assigned, received, befall, run}
use upcow.Engine.Sound.{is_closed}
use upcow.Engine.Sound.Handlers.{write_self}
use upcow.Engine.Isolation.{generation_of, IsDropped, handle_command-IsDropped}
use upcow.Engine.Positions.{handle_reset_cycle}
use upcow.Engine.Code.{update_code}

next_generation : (g n : ℤ) → n ≢ g → (if lt_int (pos 0) n then n else add64 g (pos 1)) ≢ g
unfolding add64
next_generation g n h = ground arith

blank_is_empty : is_empty "" ≡ true
unfolding String_discrete
blank_is_empty = refl

eq_int_refl : (a : ℤ) → eq_int a a ≡ true
eq_int_refl a = ground arith

module _ ⦃fl : Float⦄ where
  open fl use {zero_f, lt_f, le_f}

  confirm-id :
      (env : Env) (id : String) (o : Order) → (confirm_cancel env id o).order_id ≡ o.order_id
  unfolding confirm_cancel
  confirm-id env id o = ground arith

  -- When a successful update of the engine's generation brings news of an order, without an earlier
  -- id, and no order is open under the id, the news is stored under it as a new object, whatever
  -- was stored there.
  pub late_update_replaces :
      (env : Env) (e : Engine) (id : String) (r : ℕ)
      → lookup (e.heap r).order_id e.open_orders ≡ none
      → let (e', out) = handle_command env e (update_order id e.generation (some r) none "") in
        (lookup (e.heap r).order_id e'.order_store ≡ some e.next_ref)
        × (e'.heap e.next_ref ≡ confirm_cancel env id (e.heap r))
  unfolding handle_command update_code
  late_update_replaces env e id r h = ground (
    arith,
    eq_int_refl e.generation,
    blank_is_empty,
    confirm-id env id (e.heap r),
    lookup-insert (e.heap r).order_id (e.heap r).order_id e.next_ref e.order_store,
  )

  -- The update that follows after another goroutine gave the order the id of `o`.
  renamed_update :
      (env : Env) (e : Engine) (id k : String) (r : ℕ) (o : Order)
      → e.heap r ≡ o
      → r < e.next_ref
      → lookup o.order_id e.open_orders ≡ none
      → k ≢ o.order_id
      → is_closed o ≡ false
      → has_prefix id "cancel_result_" ≡ false
      → let e' = (handle_command env e (update_order id e.generation (some r) none "")).0 in
        (lookup k e'.open_orders ≡ lookup k e.open_orders)
        × (lookup o.order_id e'.open_orders ≡ some e.next_ref)
        × (e'.heap r ≡ o)
        × (e'.heap e.next_ref ≡ o)
  unfolding handle_command update_code confirm_cancel
  renamed_update env e id k r o at_r b n other live plain = ground (
    arith,
    eq_int_refl e.generation,
    blank_is_empty,
    lookup-insert o.order_id o.order_id e.next_ref e.open_orders,
    lookup-insert k o.order_id e.next_ref e.open_orders,
  )

  keys_differ :
      (e : Engine) (k j : String) (r : ℕ)
      → lookup k e.open_orders ≡ some r
      → lookup j e.open_orders ≡ none
      → k ≢ j
  keys_differ e k j r h n q = cc

  -- When another goroutine writes a server's id into an order that is open under another key and
  -- sends the order as an update without its earlier id, the order is open twice afterwards: the
  -- object still under the old key, and a copy of it under the server's id. The update has the
  -- engine's generation and is no cancel's result, nothing is open under the server's id before,
  -- and the order is neither filled nor canceled.
  pub renamed_opens_twice :
      (env : Env) (e : Engine) (id k server_id : String) (r : ℕ)
      → r < e.next_ref
      → lookup k e.open_orders ≡ some r
      → lookup server_id e.open_orders ≡ none
      → is_closed (e.heap r) ≡ false
      → has_prefix id "cancel_result_" ≡ false
      → let o = record (e.heap r) { order_id = server_id } in
        let e' =
          (run e
            (assigned r o ∷ received env (update_order id e.generation (some r) none "") ∷ [])).0 in
        (lookup k e'.open_orders ≡ some r)
        × (lookup server_id e'.open_orders ≡ some e.next_ref)
        × (e'.heap r ≡ o)
        × (e'.heap e.next_ref ≡ o)
  unfolding run befall step
  renamed_opens_twice env e id k server_id r b h n live plain =
      let out =
        renamed_update env counted id k r o (write_self e.heap r o) b n
          (keys_differ e k server_id r h n) live plain in
      (out.0 ∙ h, out.1, out.2, out.3)
    where
      o : Order
      o = record (e.heap r) { order_id = server_id }

      renamed : Engine
      renamed = write_order e r o

      open renamed use {stats}

      counted : Engine
      counted = record renamed {
        stats = record stats { total_commands = add64 stats.total_commands (pos 1) };
      }

  -- A cancel of which a part is executed, merged into the order that it is about.
  merge-canceled :
      (env : Env) (dst src : Order)
      → is_final_status dst ≡ false
      → src.size ≡ dst.size
      → src.filled_size ≡ dst.filled_size
      → lt_f zero_f dst.filled_size ≡ true
      → le_f dst.size dst.filled_size ≡ false
      → (merge_order env.now dst src).status ≡ partial
  unfolding merge_order merge_fields converge is_fully_executed is_final_status partial_status
  merge-canceled env dst src live size filled_size some_part rest = ground arith

  -- When an update of the engine's generation, without an earlier id, says that an order is
  -- canceled, which is open and has no final status yet, and of which more than nothing and less
  -- than the whole is executed, with the sizes that the engine knows, the order stays open under
  -- its id and is partial.
  pub canceled_part_stays_open :
      (env : Env) (e : Engine) (id : String) (r y : ℕ)
      → r < e.next_ref
      → y < e.next_ref
      → lookup (e.heap r).order_id e.open_orders ≡ some y
      → (e.heap r).status ≡ canceled
      → is_final_status (e.heap y) ≡ false
      → (e.heap r).size ≡ (e.heap y).size
      → (e.heap r).filled_size ≡ (e.heap y).filled_size
      → lt_f zero_f (e.heap y).filled_size ≡ true
      → le_f (e.heap y).size (e.heap y).filled_size ≡ false
      → let e' = (handle_command env e (update_order id e.generation (some r) none "")).0 in
        (lookup (e.heap r).order_id e'.open_orders ≡ some y) × ((e'.heap y).status ≡ partial)
  unfolding handle_command update_code confirm_cancel is_final_status
  canceled_part_stays_open env e id r y b d h st live size filled_size some_part rest = ground (
    arith,
    eq_int_refl e.generation,
    blank_is_empty,
    merge-canceled env (record (e.heap y) { order_id = (e.heap r).order_id }) (e.heap r) live size
        filled_size some_part rest,
  )

  -- After a reset to a generation that differs from the engine's, a command that carries the
  -- generation before it changes nothing but the count of errors, and has no effect but a reply
  -- that refuses it.
  pub reset-IsDropped :
      (env : Env) (e : Engine) (new_generation : ℤ) (c : Command)
      → new_generation ≢ e.generation
      → generation_of c ≡ some e.generation
      → let e' = (handle_command env e (reset_cycle new_generation)).0 in
        IsDropped e' e.generation (handle_command env e' c)
  unfolding handle_command handle_reset_cycle
  reset-IsDropped env e n c h g =
      handle_command-IsDropped env _ c e.generation g
        (λ q. next_generation e.generation n h (sym q))
