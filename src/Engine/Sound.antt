-- ===== src/Engine/Sound.antt =====
-- internal/services/order_engine.go: how openOrders, orderStore and the orders fit together, and the
-- changes to them that keep it so.
pub mod Handlers
pub mod Updates
pub mod Fills
pub mod Run
use upcow.Base.{
  ℕ, suc, String, Bool, true, false, not, ◌&&◌, ◌||◌, Option, none, some, ◌≡◌, ◌≢◌, refl, sym, ◌∙◌,
  ap, arith, ite, ◌<◌, ◌≤◌,
}
use upcow.Base.Dict.{
  Dict, lookup, insert, delete, lookup-insert, lookup-delete, AllIn, AllIn-insert, AllIn-delete,
  AllIn-lookup, AllIn-ne, AllIn-map, AllIn-zip,
}
use upcow.Base.Float.{Float}
use upcow.Domain.Order.{Order, OrderStatus, filled, canceled, eq_status}
use upcow.Engine.State.{Engine, write}

-- Which orders other goroutines may fill or cancel behind the engine's back.
pub record Others : Type 0 where
  pub may_close : ℕ → Bool

module _ ⦃fl : Float⦄ where
  abbrev pub is_closed : Order → Bool
  is_closed o = eq_status o.status filled || eq_status o.status canceled

module _ ⦃fl : Float⦄ ⦃others : Others⦄ where
  open others use {may_close}

  -- The order with that reference is filled or canceled, and is none that others may close.
  abbrev pub is_shut : ℕ → Order → Bool
  is_shut r o = is_closed o && not (may_close r)

  pub live-shut : (r : ℕ) (o : Order) → is_closed o ≡ false → is_shut r o ≡ false
  live-shut r o h = rw h refl

  -- An open order is stored under the same key, and is not shut.
  abbrev pub OpenEntry : Dict ℕ → (ℕ → Order) → String → ℕ → Type 0
  OpenEntry store heap k r = (lookup k store ≡ some r) × (is_shut r (heap r) ≡ false)

  pub record IsSound (open_orders order_store : Dict ℕ) (heap : ℕ → Order) (next : ℕ) : Type 0 where
    pub opened : AllIn (OpenEntry order_store heap) open_orders
    -- A stored order is stored under its own id, and has been allocated.
    pub keyed :
        (k : String) (r : ℕ) → lookup k order_store ≡ some r → ((heap r).order_id ≡ k) × (r < next)

  abbrev pub Sound : Engine → Type 0
  Sound e = IsSound e.open_orders e.order_store e.heap e.next_ref

  abbrev pub IsUnstored : Dict ℕ → ℕ → Type 0
  IsUnstored store r = (k : String) → lookup k store ≢ some r

  module _ (op st : Dict ℕ) (h : ℕ → Order) (next : ℕ) (s : IsSound op st h next) where
    -- An object changes and keeps its id; one that is not shut stays so.
    pub IsSound-touch :
        (r : ℕ) (o : Order)
        → o.order_id ≡ (h r).order_id
        → (is_shut r (h r) ≡ false → is_shut r o ≡ false)
        → IsSound op st (write h r o) next
    IsSound-touch r o i c = record {
      opened = AllIn-map _ _ (λ k x p. (p.0, ground arith)) op s.opened;
      keyed = λ k x p. ground (arith, s.keyed k x p);
    }

    -- The stored object changes, keeps its id and leaves the open orders.
    pub IsSound-drop :
        (k : String) (r : ℕ) (o : Order)
        → (h r).order_id ≡ k
        → o.order_id ≡ k
        → IsSound (delete k op) st (write h r o) next
    IsSound-drop k r o e i = record {
      opened =
          AllIn-delete _ k op
            (AllIn-map _ _ (λ j x p n. (p.0, ground (arith, s.keyed j x p.0))) op s.opened);
      keyed = λ j x p. ground (arith, s.keyed j x p);
    }

    -- An object comes to stand in the store under its id, where no open order has that id.
    pub IsSound-store :
        (k : String) (r : ℕ)
        → (h r).order_id ≡ k
        → r < next
        → lookup k op ≡ none
        → IsSound op (insert k r st) h next
    IsSound-store k r e b n = record {
      opened =
          AllIn-zip _ _ _ (λ j x p m. (ground (arith, lookup-insert j k r st), p.1)) op s.opened
            (AllIn-ne k op n);
      keyed = λ j x p. ground (arith, lookup-insert j k r st, s.keyed j x);
    }

    -- An object that stands in the store is stored again.
    pub IsSound-restore :
        (k : String) (r : ℕ)
        → (h r).order_id ≡ k
        → lookup k st ≡ some r
        → IsSound op (insert k r st) h next
    IsSound-restore k r e b = record {
      opened = AllIn-map _ _ (λ j x p. (ground (arith, lookup-insert j k r st), p.1)) op s.opened;
      keyed = λ j x p. ground (arith, lookup-insert j k r st, s.keyed j x);
    }

    -- A new object.
    pub IsSound-alloc : (o : Order) → IsSound op st (write h next o) (suc next)
    IsSound-alloc o = record {
      opened = AllIn-map _ _ (λ k x p. (p.0, ground (arith, s.keyed k x p.0))) op s.opened;
      keyed = λ k x p. ground (arith, s.keyed k x p);
    }

    -- An object that no map holds may change in any way.
    pub IsSound-unstored : (r : ℕ) (o : Order) → IsUnstored st r → IsSound op st (write h r o) next
    IsSound-unstored r o u = record {
      opened = AllIn-map _ _ (λ k x p. (p.0, ground (arith, u k))) op s.opened;
      keyed = λ k x p. ground (arith, s.keyed k x p, u k);
    }

    pub IsSound-remove : (k : String) → IsSound (delete k op) (delete k st) h next
    IsSound-remove k = record {
      opened =
          AllIn-delete _ k op
            (AllIn-map _ _ (λ j x p n. (ground (arith, lookup-delete j k st), p.1)) op s.opened);
      keyed = λ j x p. ground (arith, lookup-delete j k st, s.keyed j x);
    }

    pub IsSound-close : (k : String) → IsSound (delete k op) st h next
    IsSound-close k = record {
      opened = AllIn-delete _ k op (AllIn-map _ _ (λ j x p n. p) op s.opened);
      keyed = s.keyed;
    }

    -- An object that no map holds becomes an open order under its id.
    pub IsSound-open :
        (k : String) (r : ℕ)
        → (h r).order_id ≡ k
        → r < next
        → is_shut r (h r) ≡ false
        → IsUnstored st r
        → IsSound (insert k r op) (insert k r st) h next
    IsSound-open k r e b c u = record {
      opened =
          AllIn-insert _ k r op (ground (arith, lookup-insert k k r st), c)
            (AllIn-map _ _ (λ j x p n. (ground (arith, lookup-insert j k r st), p.1)) op s.opened);
      keyed = λ j x p. ground (arith, lookup-insert j k r st, s.keyed j x);
    }

    -- The same where it is closed at once, and so taken out again.
    pub IsSound-shut :
        (k : String) (r : ℕ)
        → (h r).order_id ≡ k
        → r < next
        → IsSound (delete k (insert k r op)) (insert k r st) h next
    IsSound-shut k r e b = record {
      opened = AllIn-delete _ k (insert k r op) (
          AllIn-insert _ k r op (λ n. absurd (n refl))
            (AllIn-map _ _ (λ j x p n m. (ground (arith, lookup-insert j k r st), p.1)) op
              s.opened));
      keyed = λ j x p. ground (arith, lookup-insert j k r st, s.keyed j x);
    }

    -- An open order is stored, under its own id, and is not shut.
    pub open-entry :
        (k : String) (r : ℕ)
        → lookup k op ≡ some r
        → (lookup k st ≡ some r) × (is_shut r (h r) ≡ false) × ((h r).order_id ≡ k) × (r < next)
    open-entry k r p =
        let entry = AllIn-lookup _ k r op s.opened p in
        (entry.0, entry.1, (s.keyed k r entry.0).0, (s.keyed k r entry.0).1)
