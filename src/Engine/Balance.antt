-- ===== src/Engine/Balance.antt =====
-- internal/services/order_engine.go: which commands move the balance.
use upcow.Base.{
  ℕ, String, true, false, not, ◌&&◌, ◌||◌, Bool, Option, none, some, is_some, List, [], ◌∷◌, ◌≡◌,
  refl, arith, ◌∙◌, if◌then◌else◌,
}
use upcow.Base.Int.{ℤ, eq_int}
use upcow.Base.Dict.{lookup}
use upcow.Base.Float.{Float}
use upcow.Domain.Market.{is_empty, eq_text}
use upcow.Domain.Order.{canceling, eq_status}
use upcow.Domain.Trade.{Trade}
use upcow.Engine.State.{
  Engine, Env, Command, place_order, update_order, update_balance, process_trade,
}
use upcow.Engine.Place.{order_amount, validate_place_order, lacks_balance, reserved}
use upcow.Engine.Match.{match_trade}
use upcow.Engine.Update.{handle_update_order, update_current}
use upcow.Engine.Trades.{finish_trade, mark_seen, process_current, handle_process_trade}
use upcow.Engine.Dispatch.{handle_command, step, Event, received, assigned, made, befall, run}
use upcow.Engine.Frame.{
  process_now, process_fuel-now, booked, book_trade-frame, match_trade-SameBooks,
}
use upcow.Engine.Pending.{HasNoPending, befall-pending}
use upcow.Engine.Code.{
  failure_code, place_code, cancel_code, update_code, position_code, account_code,
}

module _ ⦃fl : Float⦄ where
  open fl use {F, add_f}

  mark_seen-balance : (e : Engine) (t : Trade) → (mark_seen e t).balance ≡ e.balance
  unfolding mark_seen
  mark_seen-balance e t = ground arith

  booked-balance : (env : Env) (e : Engine) (t : Trade) → (booked env e t).balance ≡ e.balance
  booked-balance env e t =
      (book_trade-frame env (match_trade (mark_seen e t) t)).3
      ∙ (match_trade-SameBooks (mark_seen e t) t).balance
      ∙ mark_seen-balance e t

  process_now-balance :
      (env : Env) (e : Engine) (t : Trade) → (process_now env e t).0.balance ≡ e.balance
  unfolding finish_trade
  process_now-balance env e t = ground (arith, booked-balance env e t)

  trade-balance :
      (env : Env) (e : Engine) (gen : ℤ) (trade : Option Trade)
      → HasNoPending e
      → (handle_process_trade env e gen trade).0.balance ≡ e.balance
  unfolding handle_process_trade process_current
  trade-balance env e gen none p = ground arith
  trade-balance env e gen (some t) p =
      ground (arith, process_fuel-now 1 env e t p, process_now-balance env e t)

  -- An order that is placed takes what it reserves.
  abbrev after_place : Engine → ℤ → ℕ → F
  after_place e gen r =
      if eq_int gen e.generation
        && not (is_some (validate_place_order e (some (e.heap r))))
        && not (lacks_balance e (e.heap r))
      then reserved e (e.heap r)
      else e.balance

  -- An open order whose operation failed gives its amount back, unless the operation was a cancel.
  abbrev give_back : Engine → Option ℕ → F
  give_back e none = e.balance
  give_back e (some x) = add_f e.balance (order_amount (e.heap x))

  abbrev after_failure : Engine → ℤ → ℕ → F
  after_failure e gen r =
      if eq_int gen e.generation && not (eq_status (e.heap r).status canceling)
      then give_back e (lookup (e.heap r).order_id e.open_orders)
      else e.balance

  -- The balance after a command. A report of another currency than USDC is passed over.
  abbrev pub balance_after : Engine → Command → F
  balance_after e (place_order gen (some r)) = after_place e gen r
  balance_after e (update_order id gen (some r) (some msg) original) = after_failure e gen r
  balance_after e (update_balance balance currency) =
      if is_empty currency || eq_text currency "USDC" then balance else e.balance
  balance_after e c = e.balance

  place-balance :
      (env : Env) (e : Engine) (gen : ℤ) (r : ℕ)
      → (handle_command env e (place_order gen (some r))).0.balance ≡ after_place e gen r
  unfolding handle_command place_code
  place-balance env e gen r = ground arith

  failure-balance :
      (env : Env) (e : Engine) (id : String) (gen : ℤ) (r : ℕ) (msg original : String)
      → (handle_command env e (update_order id gen (some r) (some msg) original)).0.balance
        ≡ after_failure e gen r
  unfolding handle_command handle_update_order update_current failure_code order_amount
  failure-balance env e id gen r msg original = ground arith

  -- In a state without pending trades, a command leaves this balance: a placed order that passes
  -- every check takes what is reserved for it, an order that is open under the id of a failed
  -- operation's order gives its amount back unless the latter is canceling, a report of the account
  -- in USDC or in no currency sets it, and otherwise the balance is as before.
  pub handle_command-balance :
      (env : Env) (e : Engine) (c : Command)
      → HasNoPending e
      → (handle_command env e c).0.balance ≡ balance_after e c
  unfolding handle_command place_code cancel_code update_code position_code account_code
  handle_command-balance env e (process_trade gen trade) p = trade-balance env e gen trade p
  handle_command-balance env e (update_order id gen (some r) (some msg) original) p =
      failure-balance env e id gen r msg original
  handle_command-balance env e (place_order gen (some r)) p = place-balance env e gen r
  handle_command-balance env e c p = ground arith

  -- A command that neither places an order, nor brings the failure of an operation, nor reports the balance.
  abbrev pub leaves_balance : Command → Bool
  leaves_balance (place_order gen order) = false
  leaves_balance (update_order id gen order (some msg) original) = false
  leaves_balance (update_balance balance currency) = false
  leaves_balance c = true

  abbrev pub keeps_balance : Event → Bool
  keeps_balance (received env c) = leaves_balance c
  keeps_balance (assigned r o) = true
  keeps_balance (made o) = true

  abbrev pub LeaveBalance : List Event → Type 0
  LeaveBalance [] = Unit
  LeaveBalance (x ∷ xs) = (keeps_balance x ≡ true) × LeaveBalance xs

  leaves-balance_after :
      (e : Engine) (c : Command) → leaves_balance c ≡ true → balance_after e c ≡ e.balance
  leaves-balance_after e (update_order id gen (some r) none original) h = refl
  leaves-balance_after e (update_order id gen none error original) h = refl
  leaves-balance_after e c h = ground arith

  step-balance :
      (c : Env × Command) (e : Engine)
      → HasNoPending e
      → leaves_balance c.1 ≡ true
      → (step c e).0.balance ≡ e.balance
  unfolding step
  step-balance (env, c) e p h = handle_command-balance env _ c p ∙ leaves-balance_after _ c h

  befall-balance :
      (x : Event) (e : Engine)
      → HasNoPending e
      → keeps_balance x ≡ true
      → (befall x e).0.balance ≡ e.balance
  unfolding befall
  befall-balance (received env c) e p h = step-balance (env, c) e p h
  befall-balance (assigned r o) e p h = refl
  befall-balance (made o) e p h = refl

  -- A run from a state without pending trades keeps the balance, if no command places an order,
  -- brings the failure of an operation or reports the account: neither fills nor cancels nor a
  -- change of cycle move it, nor what other goroutines write into the orders.
  pub run-balance :
      (e : Engine) (xs : List Event)
      → HasNoPending e
      → LeaveBalance xs
      → (run e xs).0.balance ≡ e.balance
  unfolding run
  run-balance e [] p h = refl
  run-balance e (x ∷ xs) p h =
      run-balance (befall x e).0 xs (befall-pending x e p) h.1 ∙ befall-balance x e p h.0
