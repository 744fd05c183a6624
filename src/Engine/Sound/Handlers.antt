-- ===== src/Engine/Sound/Handlers.antt =====
-- internal/services/order_engine.go: handlePlaceOrder, handleCancelOrder, and the results that come
-- back with an error, keep the maps sound.
use upcow.Base.{
  ℕ, String, Option, none, some, ◌≡◌, refl, arith, ◌<◌, inl, inr, Option-cases, Bool-cases,
}
use upcow.Base.Int.{ℤ, eq_int}
use upcow.Base.Dict.{lookup, delete}
use upcow.Base.Float.{Float}
use upcow.Domain.Order.{Order, canceling, canceled, opened, failed, eq_status}
use upcow.Engine.State.{Engine, Env, write, write_order}
use upcow.Engine.Place.{
  accept_order, place_valid, place_current, handle_place_order, validate_place_order, lacks_balance,
  as_pending,
}
use upcow.Engine.Cancel.{
  is_non_cancelable_cancel_error, begin_cancel, cancel_current, handle_cancel_order,
  settle_as_canceled, reopen, cancel_failed_open, cancel_failed, place_failed_open, place_failed,
}
use upcow.Engine.Sound.{
  Others, Sound, IsUnstored, IsSound-touch, IsSound-drop, IsSound-store, IsSound-restore,
  IsSound-unstored, IsSound-open, open-entry,
}

module _ ⦃fl : Float⦄ where
  pub write_self : (h : ℕ → Order) (r : ℕ) (o : Order) → write h r o r ≡ o
  write_self h r o = ground arith

module _ ⦃fl : Float⦄ ⦃others : Others⦄ where
  accept-Sound :
      (env : Env) (e : Engine) (gen : ℤ) (r : ℕ)
      → Sound e
      → r < e.next_ref
      → IsUnstored e.order_store r
      → Sound (accept_order env e gen r).0
  unfolding accept_order
  accept-Sound env e gen r s b u =
      IsSound-open e.open_orders e.order_store (write e.heap r o) e.next_ref
        (IsSound-unstored e.open_orders e.order_store e.heap e.next_ref s r o u) o.order_id r
        (rw (write_self e.heap r o)) b (rw (write_self e.heap r o)) u
    where
      o : Order
      o = as_pending env (e.heap r)

  pub place-Sound :
      (env : Env) (e : Engine) (gen : ℤ) (r : ℕ)
      → Sound e
      → r < e.next_ref
      → IsUnstored e.order_store r
      → Sound (handle_place_order env e gen (some r)).0
  unfolding handle_place_order place_current place_valid
  place-Sound env e gen r s b u = elim (Bool-cases (eq_int gen e.generation)) [
    | inr old ↦ rw old s
    | inl now ↦ elim (Option-cases (validate_place_order e (some (e.heap r)))) [
      | inr (err, bad) ↦ rw (now, bad, place_valid) s
      | inl good ↦ elim (Bool-cases (lacks_balance e (e.heap r))) [
        | inl poor ↦ rw (now, good, poor) s
        | inr rich ↦ rw (now, good, rich) (accept-Sound env e gen r s b u)
      ]
    ]
  ]

  begin_cancel-Sound :
      (e : Engine) (gen : ℤ) (oid : String) (r : ℕ)
      → Sound e
      → lookup oid e.open_orders ≡ some r
      → Sound (begin_cancel e gen oid r).0
  unfolding begin_cancel
  begin_cancel-Sound e gen oid r s p =
      let entry = open-entry e.open_orders e.order_store e.heap e.next_ref s oid r p in
      IsSound-restore e.open_orders e.order_store (write e.heap r o) e.next_ref
        (IsSound-touch e.open_orders e.order_store e.heap e.next_ref s r o refl (λ _. refl))
        o.order_id r (rw (write_self e.heap r o)) (rw entry.2 entry.0)
    where
      o : Order
      o = record (e.heap r) { status = canceling }

  pub cancel-Sound :
      (e : Engine) (gen : ℤ) (oid : String) → Sound e → Sound (handle_cancel_order e gen oid).0
  unfolding handle_cancel_order cancel_current
  cancel-Sound e gen oid s = elim (Bool-cases (eq_int gen e.generation)) [
    | inr old ↦ rw old s
    | inl now ↦ elim (Option-cases (lookup oid e.open_orders)) [
      | inl missing ↦ rw (now, missing, cancel_current) s
      | inr (r, found) ↦ rw (now, found, cancel_current) (begin_cancel-Sound e gen oid r s found)
    ]
  ]

  settle_as_canceled-Sound :
      (env : Env) (e : Engine) (oid : String) (r : ℕ)
      → Sound e
      → lookup oid e.open_orders ≡ some r
      → Sound (settle_as_canceled env e r).0
  unfolding settle_as_canceled
  settle_as_canceled-Sound env e oid r s p =
      let entry = open-entry e.open_orders e.order_store e.heap e.next_ref s oid r p in
      IsSound-restore (delete o.order_id e.open_orders) e.order_store (write e.heap r o) e.next_ref
        (IsSound-drop e.open_orders e.order_store e.heap e.next_ref s o.order_id r o refl refl)
        o.order_id r (rw (write_self e.heap r o)) (rw entry.2 entry.0)
    where
      o : Order
      o = record (e.heap r) { status = canceled; canceled_at = some env.now }

  reopen-Sound :
      (e : Engine) (oid : String) (r : ℕ)
      → Sound e
      → lookup oid e.open_orders ≡ some r
      → Sound (reopen e r).0
  unfolding reopen
  reopen-Sound e oid r s p =
      let entry = open-entry e.open_orders e.order_store e.heap e.next_ref s oid r p in
      IsSound-restore e.open_orders e.order_store (write e.heap r o) e.next_ref
        (IsSound-touch e.open_orders e.order_store e.heap e.next_ref s r o refl (λ _. refl))
        o.order_id r (rw (write_self e.heap r o)) (rw entry.2 entry.0)
    where
      o : Order
      o = record (e.heap r) { status = opened }

  pub cancel_failed-Sound :
      (env : Env) (e : Engine) (r : ℕ) (msg : String)
      → Sound e
      → Sound (cancel_failed env e r msg).0
  unfolding cancel_failed cancel_failed_open
  cancel_failed-Sound env e r msg s = elim (Option-cases (lookup oid e.open_orders)) [
    | inl missing ↦ rw (missing, cancel_failed_open) s
    | inr (x, found) ↦ elim (Bool-cases (is_non_cancelable_cancel_error (some msg))) [
      | inl over ↦
          rw (found, cancel_failed_open, over) (settle_as_canceled-Sound env e oid x s found)
      | inr failure ↦ elim (Bool-cases (eq_status (e.heap x).status canceling)) [
        | inl waits ↦ rw (found, cancel_failed_open, failure, waits) (reopen-Sound e oid x s found)
        | inr moved ↦ rw (found, cancel_failed_open, failure, moved) s
      ]
    ]
  ]
    where
      oid : String
      oid = (e.heap r).order_id

  place_failed_open-Sound :
      (e : Engine) (oid : String) (r : ℕ) (open_order : Option ℕ)
      → Sound e
      → (e.heap r).order_id ≡ oid
      → r < e.next_ref
      → lookup oid e.open_orders ≡ open_order
      → Sound (place_failed_open e oid r open_order).0
  unfolding place_failed_open
  place_failed_open-Sound e oid r none s i b p =
      IsSound-store e.open_orders e.order_store e.heap e.next_ref s (e.heap r).order_id r refl b
        (rw i p)
  place_failed_open-Sound e oid r (some x) s i b p =
      let entry = open-entry e.open_orders e.order_store e.heap e.next_ref s oid x p in
      IsSound-restore (delete oid e.open_orders) e.order_store (write e.heap x o) e.next_ref
        (IsSound-drop e.open_orders e.order_store e.heap e.next_ref s oid x o entry.2 entry.2)
        (write e.heap x o x).order_id x refl (rw (write_self e.heap x o, entry.2) entry.0)
    where
      o : Order
      o = record (e.heap x) { status = failed }

  pub place_failed-Sound :
      (e : Engine) (r : ℕ) → Sound e → r < e.next_ref → Sound (place_failed e r).0
  unfolding place_failed
  place_failed-Sound e r s b =
      place_failed_open-Sound marked (marked.heap r).order_id r _
        (IsSound-touch e.open_orders e.order_store e.heap e.next_ref s r o refl (λ _. refl)) refl b
        refl
    where
      o : Order
      o = record (e.heap r) { status = failed }

      marked : Engine
      marked = write_order e r o
