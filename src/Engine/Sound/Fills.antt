-- ===== src/Engine/Sound/Fills.antt =====
-- internal/services/order_engine.go: handleProcessTrade keeps the maps sound.
use upcow.Base.{
  ℕ, suc, String, Bool, false, Option, none, some, List, [], ◌∷◌, ◌≡◌, refl, sym, arith, ◌<◌, inl,
  inr, Option-cases, Bool-cases, if◌then◌else◌, length,
}
use upcow.Base.Int.{ℤ, eq_int}
use upcow.Base.Dict.{Dict, lookup, insert, lookup-insert, AllIn, AllIn-map}
use upcow.Base.Float.{Float}
use upcow.Domain.Market.{is_empty}
use upcow.Domain.Order.{Order, filled, eq_status}
use upcow.Domain.Trade.{Trade}
use upcow.Engine.State.{Engine, Env, write, write_order}
use upcow.Engine.Match.{
  first_stored, by_taker, suits, scan_open, best_effort_match_order_for_trade, synthetic_id,
  synthetic_order, synthetic_at, synthetic_order_from_trade, match_synthetic, match_best_effort,
  match_makers, match_taker, match_stored, match_trade, Matched,
}
use upcow.Engine.Book.{correct_token, update_position_from_trade}
use upcow.Engine.Trades.{
  apply_fill, fill_status, drop_filled, book_trade, mark_seen, is_seen, finish_trade,
  process_current, handle_process_trade,
}
use upcow.Engine.Frame.{process_now, process_fuel-now, booked}
use upcow.Engine.Pending.{HasNoPending}
use upcow.Engine.Sound.{
  Others, Sound, is_shut, IsSound-touch, IsSound-drop, IsSound-store, IsSound-restore,
  IsSound-alloc, open-entry,
}
use upcow.Engine.Sound.Handlers.{write_self}

module _ ⦃fl : Float⦄ ⦃others : Others⦄ where
  -- The object is stored under its own id.
  abbrev pub IsHeld : Engine → ℕ → Type 0
  IsHeld e r = (lookup (e.heap r).order_id e.order_store ≡ some r) × (r < e.next_ref)

  abbrev SoundMatch : Matched → Type 0
  SoundMatch m = Sound m.engine × IsHeld m.engine m.order

  held : (e : Engine) (k : String) (r : ℕ) → Sound e → lookup k e.order_store ≡ some r → IsHeld e r
  held e k r s p = (rw (s.keyed k r p).0 p, (s.keyed k r p).1)

  -- An object that is held is stored once more.
  put-Sound :
      (e : Engine) (r : ℕ) (t : Trade)
      → Sound e
      → IsHeld e r
      → SoundMatch (record {
        engine = record e { order_store = insert (e.heap r).order_id r e.order_store };
        trade = t;
        order = r;
      })
  put-Sound e r t s i = (
    IsSound-restore e.open_orders e.order_store e.heap e.next_ref s (e.heap r).order_id r refl i.0,
    (ground (arith, lookup-insert (e.heap r).order_id (e.heap r).order_id r e.order_store), i.1),
  )

  else_some : (b : Bool) (x : Option ℕ) (r : ℕ) → (if b then none else x) ≡ some r → x ≡ some r
  else_some b x r p = ground arith

  scan_open-IsHeld :
      (e : Engine) (t : Trade) (c : Option ℕ) (m : Dict ℕ) (r : ℕ)
      → AllIn (λ k x. IsHeld e x) m
      → ((x : ℕ) → c ≡ some x → IsHeld e x)
      → scan_open e.heap t c m ≡ some r
      → IsHeld e r
  unfolding scan_open
  scan_open-IsHeld e t c [] r a f p = f r p
  scan_open-IsHeld e t none ((k, x) ∷ m) r a f p =
      scan_open-IsHeld e t (if suits t (e.heap x) then some x else none) m r a.1
        (λ y q. ground (arith, a.0)) p
  scan_open-IsHeld e t (some c) ((k, x) ∷ m) r a f p =
      scan_open-IsHeld e t (some c) m r a.1 f (else_some (suits t (e.heap x)) _ r p)

  first_stored-IsHeld :
      (e : Engine) (ids : List String) (id : String) (r : ℕ)
      → Sound e
      → first_stored e.order_store ids ≡ some (id, r)
      → IsHeld e r
  unfolding first_stored
  first_stored-IsHeld e [] id r s p = absurd (cc)
  first_stored-IsHeld e (j ∷ ids) id r s p = elim (Option-cases (lookup j e.order_store)) [
    | inl missing ↦ first_stored-IsHeld e ids id r s (rw (missing, first_stored) at p)
    | inr (x, found) ↦ held e j r s (ground (arith, found))
  ]

  not_open :
      (e : Engine) (k : String)
      → Sound e
      → lookup k e.order_store ≡ none
      → lookup k e.open_orders ≡ none
  not_open e k s p = elim (Option-cases (lookup k e.open_orders)) [
    | inl missing ↦ missing
    | inr (x, found) ↦
        absurd (cc (p, (open-entry e.open_orders e.order_store e.heap e.next_ref s k x found).0))
  ]

  synthetic-SoundMatch :
      (e : Engine) (t : Trade) (x : Option ℕ)
      → Sound e
      → lookup (synthetic_id t) e.order_store ≡ x
      → SoundMatch (match_synthetic t (synthetic_at e t x))
  unfolding match_synthetic synthetic_at synthetic_order
  synthetic-SoundMatch e t (some x) s p = put-Sound e x t s (held e (synthetic_id t) x s p)
  synthetic-SoundMatch e t none s p = (
    IsSound-store e.open_orders e.order_store h (suc e.next_ref)
        (IsSound-alloc e.open_orders e.order_store e.heap e.next_ref s o) (h e.next_ref).order_id
        e.next_ref refl (omega arith)
        (rw (write_self e.heap e.next_ref o) (not_open e (synthetic_id t) s p)),
    (
      ground (
        arith,
        lookup-insert (h e.next_ref).order_id (h e.next_ref).order_id e.next_ref e.order_store,
      ),
      omega arith,
    ),
  )
    where
      o : Order
      o = synthetic_order (synthetic_id t) t

      h : ℕ → Order
      h = write e.heap e.next_ref o

  best_effort-IsHeld :
      (e : Engine) (t : Trade) (r : ℕ)
      → Sound e
      → best_effort_match_order_for_trade e t ≡ some r
      → IsHeld e r
  unfolding best_effort_match_order_for_trade
  best_effort-IsHeld e t r s p =
      scan_open-IsHeld e t none e.open_orders r
        (AllIn-map _ _ (λ k x q. held e k x s q.0) e.open_orders s.opened) (λ y q. absurd (cc))
        (else_some (is_empty t.asset_id) _ r p)

  by_taker-IsHeld :
      (e : Engine) (taker id : String) (r : ℕ)
      → Sound e
      → by_taker e.order_store taker ≡ some (id, r)
      → IsHeld e r
  unfolding by_taker
  by_taker-IsHeld e taker id r s p = first_stored-IsHeld e (taker ∷ []) id r s (ground arith)

  best-SoundMatch :
      (e : Engine) (t : Trade) (x : Option ℕ)
      → Sound e
      → best_effort_match_order_for_trade e t ≡ x
      → SoundMatch (match_best_effort e t x)
  unfolding match_best_effort synthetic_order_from_trade
  best-SoundMatch e t none s p = synthetic-SoundMatch e t _ s refl
  best-SoundMatch e t (some r) s p =
      put-Sound e r (record t { order_id = (e.heap r).order_id }) s (best_effort-IsHeld e t r s p)

  makers-SoundMatch :
      (e : Engine) (t : Trade) (x : Option (String × ℕ))
      → Sound e
      → first_stored e.order_store t.maker_order_ids ≡ x
      → SoundMatch (match_makers e t x)
  unfolding match_makers
  makers-SoundMatch e t none s p = best-SoundMatch e t _ s refl
  makers-SoundMatch e t (some (id, r)) s p =
      put-Sound e r (record t { order_id = id }) s
        (first_stored-IsHeld e t.maker_order_ids id r s p)

  taker-SoundMatch :
      (e : Engine) (t : Trade) (x : Option (String × ℕ))
      → Sound e
      → by_taker e.order_store t.taker_order_id ≡ x
      → SoundMatch (match_taker e t x)
  unfolding match_taker
  taker-SoundMatch e t none s p = makers-SoundMatch e t _ s refl
  taker-SoundMatch e t (some (id, r)) s p =
      put-Sound e r (record t { order_id = id }) s (by_taker-IsHeld e t.taker_order_id id r s p)

  stored-SoundMatch :
      (e : Engine) (t : Trade) (x : Option ℕ)
      → Sound e
      → lookup t.order_id e.order_store ≡ x
      → SoundMatch (match_stored e t x)
  unfolding match_stored
  stored-SoundMatch e t none s p = taker-SoundMatch e t _ s refl
  stored-SoundMatch e t (some r) s p = (s, held e t.order_id r s p)

  match-SoundMatch : (e : Engine) (t : Trade) → Sound e → SoundMatch (match_trade e t)
  unfolding match_trade
  match-SoundMatch e t s = stored-SoundMatch e t _ s refl

  fill-id : (env : Env) (t : Trade) (o : Order) → (apply_fill env t o).order_id ≡ o.order_id
  unfolding apply_fill fill_status
  fill-id env t o = ground arith

  -- A fill closes an order only by filling it.
  fill-live :
      (env : Env) (t : Trade) (r : ℕ) (o : Order)
      → eq_status (apply_fill env t o).status filled ≡ false
      → is_shut r o ≡ false
      → is_shut r (apply_fill env t o) ≡ false
  unfolding apply_fill fill_status
  fill-live env t r o h k = ground arith

  filled-Sound :
      (env : Env) (m : Matched)
      → SoundMatch m
      → let o = apply_fill env m.trade (m.engine.heap m.order) in
        Sound (drop_filled (write_order m.engine m.order o) o)
  unfolding drop_filled
  filled-Sound env m (s, i) = elim (Bool-cases (eq_status o.status filled)) [
    | inl done ↦ rw done (
        IsSound-drop e.open_orders e.order_store e.heap e.next_ref s o.order_id m.order o
          (sym the_id) refl)
    | inr more ↦ rw more (
        IsSound-touch e.open_orders e.order_store e.heap e.next_ref s m.order o the_id
          (fill-live env m.trade m.order (e.heap m.order) more))
  ]
    where
      open m use {engine as e}

      o : Order
      o = apply_fill env m.trade (e.heap m.order)

      the_id : o.order_id ≡ (e.heap m.order).order_id
      the_id = fill-id env m.trade (e.heap m.order)

  correct-id : (o : Order) (t : Trade) → (correct_token o t).order_id ≡ o.order_id
  unfolding correct_token
  correct-id o t = ground arith

  correct-live :
      (r : ℕ) (o : Order) (t : Trade) → is_shut r o ≡ false → is_shut r (correct_token o t) ≡ false
  unfolding correct_token
  correct-live r o t h = ground arith

  mark_seen-Sound : (e : Engine) (t : Trade) → Sound e → Sound (mark_seen e t)
  unfolding mark_seen
  mark_seen-Sound e t s = elim (Bool-cases (is_empty t.id)) [
    | inl blank ↦ rw blank s
    | inr named ↦ rw named s
  ]

  position-Sound :
      (e : Engine) (t : Trade) (r : ℕ) → Sound e → Sound (update_position_from_trade e t r)
  unfolding update_position_from_trade
  position-Sound e t r s =
      IsSound-touch e.open_orders e.order_store e.heap e.next_ref s r (correct_token (e.heap r) t)
        (correct-id (e.heap r) t) (correct-live r (e.heap r) t)

  booked-Sound : (env : Env) (e : Engine) (t : Trade) → Sound e → Sound (booked env e t)
  unfolding book_trade
  booked-Sound env e t s =
      position-Sound _ _ _
        (filled-Sound env _ (match-SoundMatch (mark_seen e t) t (mark_seen-Sound e t s)))

  now-Sound : (env : Env) (e : Engine) (t : Trade) → Sound e → Sound (process_now env e t).0
  unfolding finish_trade
  now-Sound env e t s = elim (Bool-cases (is_seen e t)) [
    | inl seen ↦ rw seen s
    | inr fresh ↦ rw fresh (booked-Sound env e t s)
  ]

  pub trade-Sound :
      (env : Env) (e : Engine) (gen : ℤ) (trade : Option Trade)
      → HasNoPending e
      → Sound e
      → Sound (handle_process_trade env e gen trade).0
  unfolding handle_process_trade process_current
  trade-Sound env e gen trade p s = elim (Bool-cases (eq_int gen e.generation)) [
    | inr old ↦ rw old s
    | inl now ↦ rw now (current trade)
  ]
    where
      current : (x : Option Trade) → Sound (process_current env e x).0
      current none = s
      current (some t) =
          rw (process_fuel-now (suc (length e.pending_trades)) env e t p) (now-Sound env e t s)
