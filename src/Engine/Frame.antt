-- ===== src/Engine/Frame.antt =====
-- internal/services/order_engine.go: what handleProcessTrade leaves alone, and its run where no trade
-- is pending.
use upcow.Base.{ℕ, suc, [], if◌then◌else◌, ◌≡◌, arith, ◌∙◌}
use upcow.Base.Float.{Float}
use upcow.Domain.Trade.{Trade}
use upcow.Engine.State.{Engine, Env, Outcome}
use upcow.Engine.Match.{Matched, match_trade}
use upcow.Engine.Book.{update_position_from_trade}
use upcow.Engine.Trades.{
  book_trade, process_fuel, process_pending_trades, finish_trade, is_seen, mark_seen, drop_filled,
  ready_trades, replay,
}
use upcow.Engine.Code.{match_code}

module _ ⦃fl : Float⦄ where
  pub record SameBooks (e e' : Engine) : Type 0 where
    pub positions : e'.positions ≡ e.positions
    pub open_orders : e'.open_orders ≡ e.open_orders
    pub pending_trades : e'.pending_trades ≡ e.pending_trades
    pub seen_trades : e'.seen_trades ≡ e.seen_trades
    pub generation : e'.generation ≡ e.generation
    pub balance : e'.balance ≡ e.balance
    pub order_handlers : e'.order_handlers ≡ e.order_handlers

  -- The search for a trade's order writes the heap and the store only.
  pub match_trade-SameBooks : (e : Engine) (t : Trade) → SameBooks e (match_trade e t).engine
  unfolding match_code
  match_trade-SameBooks e t = ground arith

  -- Booking a trade leaves the trades alone, pending and seen, and the rest of the account.
  pub book_trade-frame :
      (env : Env) (m : Matched)
      → ((book_trade env m).pending_trades ≡ m.engine.pending_trades)
        × ((book_trade env m).seen_trades ≡ m.engine.seen_trades)
        × ((book_trade env m).generation ≡ m.engine.generation)
        × ((book_trade env m).balance ≡ m.engine.balance)
  unfolding book_trade drop_filled update_position_from_trade
  book_trade-frame env m = ground arith

  mark_seen-pending : (e : Engine) (t : Trade) → (mark_seen e t).pending_trades ≡ e.pending_trades
  unfolding mark_seen
  mark_seen-pending e t = ground arith

  mark_seen-generation : (e : Engine) (t : Trade) → (mark_seen e t).generation ≡ e.generation
  unfolding mark_seen
  mark_seen-generation e t = ground arith

  -- The engine with the trade's order found and the trade booked.
  abbrev pub booked : Env → Engine → Trade → Engine
  booked env e t = book_trade env (match_trade (mark_seen e t) t)

  -- What is left of the handler where no trade is pending.
  abbrev pub process_now : Env → Engine → Trade → Outcome
  process_now env e t =
      if is_seen e t
      then (e, [])
      else finish_trade (match_trade (mark_seen e t) t).order (booked env e t, [])

  pub booked-pending :
      (env : Env) (e : Engine) (t : Trade) → (booked env e t).pending_trades ≡ e.pending_trades
  booked-pending env e t =
      (book_trade-frame env (match_trade (mark_seen e t) t)).0
      ∙ (match_trade-SameBooks (mark_seen e t) t).pending_trades
      ∙ mark_seen-pending e t

  process_pending_trades-nil :
      (h : Engine → Trade → Outcome) (e : Engine)
      → e.pending_trades ≡ []
      → process_pending_trades h e ≡ (e, [])
  unfolding process_pending_trades ready_trades replay
  process_pending_trades-nil h e p = rw p

  pub process_fuel-now :
      (f : ℕ) (env : Env) (e : Engine) (t : Trade)
      → e.pending_trades ≡ []
      → process_fuel (suc f) env e t ≡ process_now env e t
  unfolding process_fuel
  process_fuel-now f env e t p =
      rw (process_pending_trades-nil _ (booked env e t) (booked-pending env e t ∙ p))
