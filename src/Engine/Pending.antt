-- ===== src/Engine/Pending.antt =====
-- internal/services/order_engine.go: pendingTrades, and the fuel of handleProcessTrade.
use upcow.Base.{
  length, ℕ, suc, true, false, Option, none, some, is_some, List, [], ◌≡◌, refl, arith, ◌∙◌,
}
use upcow.Base.Int.{ℤ}
use upcow.Base.Dict.{lookup, lookup-insert}
use upcow.Base.Float.{Float}
use upcow.Domain.Market.{is_empty}
use upcow.Domain.Trade.{Trade}
use upcow.Engine.State.{Engine, Env, Effect, Command, process_trade}
use upcow.Engine.Match.{match_trade}
use upcow.Engine.Trades.{
  process_fuel, finish_trade, is_seen, mark_seen, process_current, handle_process_trade,
}
use upcow.Engine.Dispatch.{handle_command, step, Event, received, assigned, made, befall}
use upcow.Engine.Frame.{
  process_now, process_fuel-now, booked, booked-pending, book_trade-frame, match_trade-SameBooks,
}
use upcow.Engine.Code.{place_code, cancel_code, update_code, position_code, account_code}

module _ ⦃fl : Float⦄ where
  abbrev pub HasNoPending : Engine → Type 0
  HasNoPending e = e.pending_trades ≡ []

  pub finish_trade-pending :
      (r : ℕ) (e : Engine) (out : List Effect)
      → (finish_trade r (e, out)).0.pending_trades ≡ e.pending_trades
  unfolding finish_trade
  finish_trade-pending r e out = refl

  process_now-pending :
      (env : Env) (e : Engine) (t : Trade)
      → (process_now env e t).0.pending_trades ≡ e.pending_trades
  process_now-pending env e t = ground (
    arith,
    booked-pending env e t,
    finish_trade-pending (match_trade (mark_seen e t) t).order (booked env e t) [],
  )

  process_fuel-pending :
      (f : ℕ) (env : Env) (e : Engine) (t : Trade)
      → HasNoPending e
      → HasNoPending (process_fuel (suc f) env e t).0
  process_fuel-pending f env e t p =
      rw (process_fuel-now f env e t p) (process_now-pending env e t ∙ p)

  trade-pending :
      (env : Env) (e : Engine) (gen : ℤ) (trade : Option Trade)
      → HasNoPending e
      → HasNoPending (handle_process_trade env e gen trade).0
  unfolding handle_process_trade process_current
  trade-pending env e gen none p = ground arith
  trade-pending env e gen (some t) p = ground (arith, process_fuel-pending 1 env e t p)

  -- No command ever puts a trade among the pending ones.
  pub handle_command-pending :
      (env : Env) (e : Engine) (c : Command)
      → HasNoPending e
      → HasNoPending (handle_command env e c).0
  unfolding handle_command place_code cancel_code update_code position_code account_code
  handle_command-pending env e (process_trade gen trade) p = trade-pending env e gen trade p
  handle_command-pending env e c p = ground arith

  pub step-pending : (c : Env × Command) (e : Engine) → HasNoPending e → HasNoPending (step c e).0
  unfolding step
  step-pending (env, c) e p = handle_command-pending env _ c p

  pub befall-pending : (x : Event) (e : Engine) → HasNoPending e → HasNoPending (befall x e).0
  unfolding befall
  befall-pending (received env c) e p = step-pending (env, c) e p
  befall-pending (assigned r o) e p = p
  befall-pending (made o) e p = p

  mark_seen-lookup :
      (e : Engine) (t : Trade)
      → is_empty t.id ≡ false
      → is_some (lookup t.id (mark_seen e t).seen_trades) ≡ true
  unfolding mark_seen
  mark_seen-lookup e t h = ground (arith, lookup-insert t.id t.id tt e.seen_trades)

  finish_trade-seen :
      (r : ℕ) (e : Engine) (out : List Effect)
      → (finish_trade r (e, out)).0.seen_trades ≡ e.seen_trades
  unfolding finish_trade
  finish_trade-seen r e out = refl

  booked-seen :
      (env : Env) (e : Engine) (t : Trade)
      → (booked env e t).seen_trades ≡ (mark_seen e t).seen_trades
  booked-seen env e t =
      (book_trade-frame env (match_trade (mark_seen e t) t)).1
      ∙ (match_trade-SameBooks (mark_seen e t) t).seen_trades

  process_now-seen :
      (env : Env) (e : Engine) (t t' : Trade)
      → is_empty t.id ≡ false
      → t'.id ≡ t.id
      → is_seen (process_now env e t).0 t' ≡ true
  unfolding is_seen
  process_now-seen env e t t' h q = ground (
    arith,
    booked-seen env e t,
    mark_seen-lookup e t h,
    finish_trade-seen (match_trade (mark_seen e t) t).order (booked env e t) [],
  )

  process_now-repeat :
      (env : Env) (e : Engine) (t : Trade) → is_seen e t ≡ true → process_now env e t ≡ (e, [])
  process_now-repeat env e t h = rw h

  trade-now :
      (env : Env) (e : Engine) (t : Trade)
      → HasNoPending e
      → handle_process_trade env e e.generation (some t) ≡ process_now env e t
  unfolding handle_process_trade process_current
  trade-now env e t p = ground (arith, process_fuel-now (suc (length e.pending_trades)) env e t p)

  trade-seen :
      (env : Env) (e : Engine) (gen : ℤ) (t : Trade)
      → HasNoPending e
      → is_seen e t ≡ true
      → handle_process_trade env e gen (some t) ≡ (e, [])
  unfolding handle_process_trade process_current
  trade-seen env e gen t p h = ground (
    arith,
    process_fuel-now (suc (length e.pending_trades)) env e t p,
    process_now-repeat env e t h,
  )

  -- When the engine handles a trade of its own generation and next one of the same id, of any
  -- generation and with any other contents, the second changes nothing and has no effect. The id is
  -- not empty, and no trade is pending before.
  pub process_trade_twice :
      (env env' : Env) (e : Engine) (t t' : Trade) (gen : ℤ)
      → HasNoPending e
      → is_empty t.id ≡ false
      → t'.id ≡ t.id
      → let e' = (handle_command env e (process_trade e.generation (some t))).0 in
        handle_command env' e' (process_trade gen (some t')) ≡ (e', [])
  unfolding handle_command
  process_trade_twice env env' e t t' gen p h q = rw (trade-now env e t p) (
      trade-seen env' (process_now env e t).0 gen t' (process_now-pending env e t ∙ p)
        (process_now-seen env e t t' h q))
