-- ===== src/Engine/Sound/Updates.antt =====
-- internal/services/order_engine.go: handleUpdateOrder keeps the maps sound.
use upcow.Base.{
  ℕ, String, false, not, ◌&&◌, Option, none, some, ◌≡◌, refl, sym, ◌∙◌, arith, ◌<◌, inl, inr,
  Bool-cases,
}
use upcow.Base.Int.{ℤ, eq_int}
use upcow.Base.Dict.{lookup, delete, lookup-delete}
use upcow.Base.Float.{Float}
use upcow.Domain.Market.{is_empty, eq_text}
use upcow.Domain.Order.{Order, canceling, eq_status}
use upcow.Engine.State.{Engine, Env, write}
use upcow.Engine.Merge.{merge_order, merge_into_final, merge_fields, converge}
use upcow.Engine.Update.{
  clone_in, absorb, rekey_open, rekey, settle_open, settle, store, drop_closed, finish_update,
  settle_rekeyed, update_succeeded, update_current, handle_update_order,
}
use upcow.Engine.Sound.{
  Others, Sound, IsUnstored, is_closed, is_shut, live-shut, IsSound-touch, IsSound-drop,
  IsSound-restore, IsSound-unstored, IsSound-open, IsSound-shut, IsSound-remove, IsSound-alloc,
  open-entry,
}
use upcow.Engine.Sound.Handlers.{write_self, cancel_failed-Sound, place_failed-Sound}

module _ ⦃fl : Float⦄ ⦃others : Others⦄ where
  merge-id : (env : Env) (dst src : Order) → (merge_order env.now dst src).order_id ≡ dst.order_id
  unfolding merge_order merge_into_final merge_fields converge
  merge-id env dst src = ground arith

  -- The object at hand is held by no map.
  abbrev pub IsLoose : Engine × ℕ → Type 0
  IsLoose (e, n) = Sound e × (n < e.next_ref) × IsUnstored e.order_store n

  clone-IsLoose :
      (env : Env) (e : Engine) (id : String) (r : ℕ)
      → Sound e
      → IsLoose (clone_in env e id r, e.next_ref)
  unfolding clone_in
  clone-IsLoose env e id r s = (
    IsSound-alloc e.open_orders e.order_store e.heap e.next_ref s _,
    omega arith,
    λ k p. absurd (omega (arith, (s.keyed k e.next_ref p).1)),
  )

  rekey_open-IsLoose :
      (env : Env) (e : Engine) (original : String) (n : ℕ) (x : Option ℕ)
      → IsLoose (e, n)
      → lookup original e.open_orders ≡ x
      → IsLoose (rekey_open env e original n x)
  unfolding rekey_open absorb
  rekey_open-IsLoose env e original n none l p = l
  rekey_open-IsLoose env e original n (some x) (s, b, u) p =
      let entry = open-entry e.open_orders e.order_store e.heap e.next_ref s original x p in
      (
        IsSound-unstored (delete original e.open_orders) (delete original e.order_store) e.heap
            e.next_ref (IsSound-remove e.open_orders e.order_store e.heap e.next_ref s original) x _
            gone,
        entry.3,
        gone,
      )
    where
      gone : IsUnstored (delete original e.order_store) x
      gone k q = ground (
        arith,
        lookup-delete k original e.order_store,
        s.keyed k x,
        open-entry e.open_orders e.order_store e.heap e.next_ref s original x p,
      )

  rekey-IsLoose :
      (env : Env) (e : Engine) (original : String) (n : ℕ)
      → IsLoose (e, n)
      → IsLoose (rekey env e original n)
  unfolding rekey
  rekey-IsLoose env e original n l =
      elim (Bool-cases (not (is_empty original) && not (eq_text original (e.heap n).order_id))) [
        | inr same ↦ rw same l
        | inl moved ↦ rw moved (rekey_open-IsLoose env e original n _ l refl)
      ]

  -- The rest of the handler: the order is settled, stored, and dropped if it is closed.
  close_stored : Env → Engine × ℕ → Engine
  close_stored env p = let (e, n) = store p in drop_closed e (e.heap n)

  settle_open-Sound :
      (env : Env) (e : Engine) (n : ℕ) (y : Option ℕ)
      → IsLoose (e, n)
      → lookup (e.heap n).order_id e.open_orders ≡ y
      → Sound (close_stored env (settle_open env e n y))
  unfolding close_stored store drop_closed settle_open absorb
  settle_open-Sound env e n none (s, b, u) p = elim (Bool-cases (is_closed (e.heap n))) [
    | inl closed ↦
        rw closed (IsSound-shut e.open_orders e.order_store e.heap e.next_ref s _ n refl b)
    | inr live ↦ rw live (
        IsSound-open e.open_orders e.order_store e.heap e.next_ref s _ n refl b
          (live-shut n (e.heap n) live) u)
  ]
  settle_open-Sound env e n (some y) (s, b, u) p = elim (Bool-cases (is_closed (h y))) [
    | inl closed ↦ rw closed (
        IsSound-restore (delete (h y).order_id e.open_orders) e.order_store h e.next_ref
          (IsSound-drop e.open_orders e.order_store e.heap e.next_ref s (h y).order_id y o
            (rw (the_id, entry.2)) (rw (write_self e.heap y o)))
          (h y).order_id y refl (rw the_id entry.0))
    | inr live ↦ rw live (
        IsSound-restore e.open_orders e.order_store h e.next_ref
          (IsSound-touch e.open_orders e.order_store e.heap e.next_ref s y o
            (merge-id env renamed (e.heap n) ∙ sym entry.2)
            (λ _. live-shut y o (rw (sym (write_self e.heap y o)) live)))
          (h y).order_id y refl (rw the_id entry.0))
  ]
    where
      entry :
          (lookup (e.heap n).order_id e.order_store ≡ some y)
          × (is_shut y (e.heap y) ≡ false)
          × ((e.heap y).order_id ≡ (e.heap n).order_id)
          × (y < e.next_ref)
      entry = open-entry e.open_orders e.order_store e.heap e.next_ref s (e.heap n).order_id y p

      renamed : Order
      renamed = record (e.heap y) { order_id = (e.heap n).order_id }

      o : Order
      o = merge_order env.now renamed (e.heap n)

      h : ℕ → Order
      h = write e.heap y o

      the_id : (h y).order_id ≡ (e.heap n).order_id
      the_id = rw (write_self e.heap y o) (merge-id env renamed (e.heap n))

  pub update_succeeded-Sound :
      (env : Env) (e : Engine) (id : String) (gen : ℤ) (r : ℕ) (original : String)
      → Sound e
      → Sound (update_succeeded env e id gen r original).0
  unfolding update_succeeded finish_update settle_rekeyed settle close_stored
  update_succeeded-Sound env e id gen r original s =
      let p : Engine × ℕ = rekey env (clone_in env e id r) original e.next_ref in
      let l : IsLoose p =
        rekey-IsLoose env (clone_in env e id r) original e.next_ref (clone-IsLoose env e id r s) in
      settle_open-Sound env p.0 p.1 (lookup (p.0.heap p.1).order_id p.0.open_orders) l refl

  pub update-Sound :
      (env : Env) (e : Engine) (id : String) (gen : ℤ) (r : ℕ) (error : Option String)
      (original : String)
      → Sound e
      → r < e.next_ref
      → Sound (handle_update_order env e id gen (some r) error original).0
  unfolding handle_update_order update_current
  update-Sound env e id gen r none original s b = elim (Bool-cases (eq_int gen e.generation)) [
    | inr old ↦ rw old s
    | inl now ↦ rw now (update_succeeded-Sound env e id gen r original s)
  ]
  update-Sound env e id gen r (some msg) original s b =
      elim (Bool-cases (eq_int gen e.generation)) [
        | inr old ↦ rw old s
        | inl now ↦ elim (Bool-cases (eq_status (e.heap r).status canceling)) [
          | inl cancels ↦ rw (now, cancels) (cancel_failed-Sound env e r msg s)
          | inr places ↦ rw (now, places) (place_failed-Sound e r s b)
        ]
      ]
