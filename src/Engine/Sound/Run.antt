-- ===== src/Engine/Sound/Run.antt =====
-- internal/services/order_engine.go: the maps stay sound over any run of the engine.
use upcow.Base.{
  ℕ, String, none, some, List, [], ◌∷◌, ◌≡◌, refl, arith, ◌<◌, Bool, true, false, ◌⊎◌, inl, inr,
}
use upcow.Base.Int.{ℤ, pos, add64}
use upcow.Base.Dict.{lookup}
use upcow.Base.Float.{Float}
use upcow.Domain.Order.{Order}
use upcow.Engine.State.{
  Engine, Env, Command, place_order, cancel_order, update_order, process_trade, reset_cycle,
  new_order_engine,
}
use upcow.Engine.Dispatch.{handle_command, step, Event, received, assigned, made, befall, run}
use upcow.Engine.Code.{position_code, account_code, update_code, place_code}
use upcow.Engine.Pending.{HasNoPending, step-pending}
use upcow.Engine.Sound.{
  Others, Sound, IsUnstored, is_shut, IsSound-touch, IsSound-unstored, IsSound-alloc, open-entry,
}
use upcow.Engine.Sound.Handlers.{place-Sound, cancel-Sound}
use upcow.Engine.Sound.Updates.{update-Sound}
use upcow.Engine.Sound.Fills.{trade-Sound}

module _ ⦃fl : Float⦄ ⦃others : Others⦄ where
  open fl use {F}

  -- What a caller keeps to: it names orders that exist, and places only new ones.
  abbrev pub IsProper : Engine → Command → Type 0
  IsProper e (place_order gen (some r)) = (r < e.next_ref) × IsUnstored e.order_store r
  IsProper e (update_order id gen (some r) error original) = r < e.next_ref
  IsProper e c = Unit

  -- No trade is pending, and the maps fit together.
  pub record Good (e : Engine) : Type 0 where
    pub pending : HasNoPending e
    pub sound : Sound e

  -- Two states with the same orders.
  record SameOrders (e e' : Engine) : Type 0 where
    open_orders : e'.open_orders ≡ e.open_orders
    order_store : e'.order_store ≡ e.order_store
    heap : e'.heap ≡ e.heap
    next_ref : e'.next_ref ≡ e.next_ref

  same-Sound : (e e' : Engine) → SameOrders e e' → Sound e → Sound e'
  same-Sound e e' q s = rw (q.open_orders, q.order_store, q.heap, q.next_ref) s

  -- The commands about positions, the account and the engine itself.
  abbrev leaves_orders : Command → Bool
  leaves_orders (place_order gen none) = true
  leaves_orders (place_order gen (some r)) = false
  leaves_orders (cancel_order gen oid) = false
  leaves_orders (update_order id gen none error original) = true
  leaves_orders (update_order id gen (some r) error original) = false
  leaves_orders (process_trade gen trade) = false
  leaves_orders (reset_cycle new_generation) = false
  leaves_orders c = true

  same_orders :
      (env : Env) (e : Engine) (c : Command)
      → leaves_orders c ≡ true
      → SameOrders e (handle_command env e c).0
  unfolding handle_command place_code update_code position_code account_code
  same_orders env e (place_order gen none) h = ground arith
  same_orders env e (update_order id gen none none original) h = ground arith
  same_orders env e (update_order id gen none (some msg) original) h = ground arith
  same_orders env e c h = ground arith

  reset-Sound : (env : Env) (e : Engine) (g : ℤ) → Sound (handle_command env e (reset_cycle g)).0
  unfolding handle_command account_code lookup
  reset-Sound env e g = record { opened = tt; keyed = λ k r p. absurd (cc) }

  handle_command-Sound :
      (env : Env) (e : Engine) (c : Command)
      → Good e
      → IsProper e c
      → Sound (handle_command env e c).0
  unfolding handle_command
  handle_command-Sound env e (place_order gen none) g p =
      same-Sound e _ (same_orders env e (place_order gen none) refl) g.sound
  handle_command-Sound env e (place_order gen (some r)) g p =
      place-Sound env e gen r g.sound p.0 p.1
  handle_command-Sound env e (cancel_order gen oid) g p = cancel-Sound e gen oid g.sound
  handle_command-Sound env e (update_order id gen none error original) g p =
      same-Sound e _ (same_orders env e (update_order id gen none error original) refl) g.sound
  handle_command-Sound env e (update_order id gen (some r) error original) g p =
      update-Sound env e id gen r error original g.sound p
  handle_command-Sound env e (process_trade gen trade) g p =
      trade-Sound env e gen trade g.pending g.sound
  handle_command-Sound env e (reset_cycle new_generation) g p = reset-Sound env e new_generation
  handle_command-Sound env e c g p = same-Sound e _ (same_orders env e c refl) g.sound

  step-Good : (c : Env × Command) (e : Engine) → Good e → IsProper e c.1 → Good (step c e).0
  unfolding step
  step-Good (env, c) e g p = record {
    pending = step-pending (env, c) e g.pending;
    sound = handle_command-Sound env counted c (record { pending = g.pending; sound = g.sound }) p;
  }
    where
      open e use {stats}

      counted : Engine
      counted = record e {
        stats = record stats { total_commands = add64 stats.total_commands (pos 1) };
      }

  -- What other goroutines keep to when they write into an order that is stored: it keeps its id, and only
  -- those that they may close are filled or canceled by them.
  abbrev pub IsCareful : Engine → Event → Type 0
  IsCareful e (received env c) = IsProper e c
  IsCareful e (assigned r o) =
      IsUnstored e.order_store r
      ⊎ ((o.order_id ≡ (e.heap r).order_id) × (is_shut r (e.heap r) ≡ false → is_shut r o ≡ false))
  IsCareful e (made o) = Unit

  befall-Good : (x : Event) (e : Engine) → Good e → IsCareful e x → Good (befall x e).0
  unfolding befall
  befall-Good (received env c) e g p = step-Good (env, c) e g p
  befall-Good (assigned r o) e g (inl u) = record {
    pending = g.pending;
    sound = IsSound-unstored e.open_orders e.order_store e.heap e.next_ref g.sound r o u;
  }
  befall-Good (assigned r o) e g (inr (i, c)) = record {
    pending = g.pending;
    sound = IsSound-touch e.open_orders e.order_store e.heap e.next_ref g.sound r o i c;
  }
  befall-Good (made o) e g p = record {
    pending = g.pending;
    sound = IsSound-alloc e.open_orders e.order_store e.heap e.next_ref g.sound o;
  }

  -- All keep to the rules, each at the state that its event meets.
  abbrev pub IsProperRun : Engine → List Event → Type 0
  IsProperRun e [] = Unit
  IsProperRun e (x ∷ xs) = IsCareful e x × IsProperRun (befall x e).0 xs

  run-Good : (e : Engine) (xs : List Event) → Good e → IsProperRun e xs → Good (run e xs).0
  unfolding run
  run-Good e [] g p = g
  run-Good e (x ∷ xs) g p = run-Good (befall x e).0 xs (befall-Good x e g p.0) p.1

  pub new-Good :
      (heap : ℕ → Order) (next : ℕ) (min_order_size : F) (dry_run : Bool)
      → Good (new_order_engine heap next min_order_size dry_run)
  unfolding new_order_engine lookup
  new-Good heap next m d = record {
    pending = refl;
    sound = record { opened = tt; keyed = λ k r p. absurd (cc) };
  }

  -- After any run of a new engine in which every caller names orders that exist and places only
  -- orders that are not stored, and other goroutines keep the id of a stored order that they write
  -- into and fill or cancel none but those that they may, an order that is open under a key is
  -- stored under it too, has that key for its id, has been allocated, and is neither filled nor
  -- canceled unless it is one that they may fill or cancel.
  pub run-open_orders :
      (heap : ℕ → Order) (next : ℕ) (min_order_size : F) (dry_run : Bool) (xs : List Event)
      (k : String) (r : ℕ)
      → IsProperRun (new_order_engine heap next min_order_size dry_run) xs
      → lookup k (run (new_order_engine heap next min_order_size dry_run) xs).0.open_orders ≡ some r
      → let e = (run (new_order_engine heap next min_order_size dry_run) xs).0 in
        (lookup k e.order_store ≡ some r)
        × (is_shut r (e.heap r) ≡ false)
        × ((e.heap r).order_id ≡ k)
        × (r < e.next_ref)
  run-open_orders heap next m d xs k r p q =
      let g : Good _ = run-Good _ xs (new-Good heap next m d) p in open-entry _ _ _ _ g.sound k r q
