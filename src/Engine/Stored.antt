-- ===== src/Engine/Stored.antt =====
-- internal/services/order_engine.go: orderStore while handleProcessTrade looks for an order.
use upcow.Base.{ℕ, String, true, Option, none, some, is_some, ◌≡◌, arith, inl, inr, Option-cases}
use upcow.Base.Dict.{Dict, lookup, insert, lookup-insert}
use upcow.Base.Float.{Float}
use upcow.Domain.Trade.{Trade}
use upcow.Engine.State.{Engine, Env}
use upcow.Engine.Match.{
  Matched, match_trade, match_stored, match_taker, match_makers, match_best_effort, match_synthetic,
  synthetic_order_from_trade, synthetic_at, synthetic_id,
}
use upcow.Engine.Book.{update_position_from_trade}
use upcow.Engine.Trades.{mark_seen, book_trade, drop_filled}
use upcow.Engine.Frame.{booked}

module _ ⦃fl : Float⦄ where
  abbrev pub IsStored : String → Engine → Type 0
  IsStored k e = is_some (lookup k e.order_store) ≡ true

  insert-IsStored :
      (k j : String) (r : ℕ) (m : Dict ℕ)
      → is_some (lookup k m) ≡ true
      → is_some (lookup k (insert j r m)) ≡ true
  insert-IsStored k j r m h = ground (arith, lookup-insert k j r m)

  -- The search for a trade's order takes no order from the store.
  best-IsStored :
      (k : String) (e : Engine) (t : Trade) (x : Option ℕ)
      → IsStored k e
      → IsStored k (match_best_effort e t x).engine
  unfolding match_best_effort match_synthetic synthetic_order_from_trade synthetic_at
  best-IsStored k e t (some r) h = insert-IsStored k (e.heap r).order_id r e.order_store h
  best-IsStored k e t none h = elim (Option-cases (lookup (synthetic_id t) e.order_store)) [
    | inl missing ↦ rw (missing, synthetic_at) (insert-IsStored k _ _ e.order_store h)
    | inr (r, found) ↦ rw (found, synthetic_at) (insert-IsStored k _ r e.order_store h)
  ]

  makers-IsStored :
      (k : String) (e : Engine) (t : Trade) (x : Option (String × ℕ))
      → IsStored k e
      → IsStored k (match_makers e t x).engine
  unfolding match_makers
  makers-IsStored k e t none h = best-IsStored k e t _ h
  makers-IsStored k e t (some (id, r)) h = insert-IsStored k (e.heap r).order_id r e.order_store h

  taker-IsStored :
      (k : String) (e : Engine) (t : Trade) (x : Option (String × ℕ))
      → IsStored k e
      → IsStored k (match_taker e t x).engine
  unfolding match_taker
  taker-IsStored k e t none h = makers-IsStored k e t _ h
  taker-IsStored k e t (some (id, r)) h = insert-IsStored k (e.heap r).order_id r e.order_store h

  match-IsStored :
      (k : String) (e : Engine) (t : Trade) (x : Option ℕ)
      → IsStored k e
      → IsStored k (match_stored e t x).engine
  unfolding match_stored
  match-IsStored k e t none h = taker-IsStored k e t _ h
  match-IsStored k e t (some r) h = h

  book-store : (env : Env) (m : Matched) → (book_trade env m).order_store ≡ m.engine.order_store
  unfolding book_trade drop_filled update_position_from_trade
  book-store env m = ground arith

  mark-store : (e : Engine) (t : Trade) → (mark_seen e t).order_store ≡ e.order_store
  unfolding mark_seen
  mark-store e t = ground arith

  pub booked-IsStored :
      (k : String) (env : Env) (e : Engine) (t : Trade) → IsStored k e → IsStored k (booked env e t)
  unfolding match_trade
  booked-IsStored k env e t h =
      rw (book-store env (match_trade (mark_seen e t) t))
        (match-IsStored k (mark_seen e t) t _ (rw (mark-store e t) h))
