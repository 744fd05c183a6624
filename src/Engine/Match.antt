-- ===== src/Engine/Match.antt =====
-- internal/services/order_engine.go: which order a trade belongs to. The lookups at the head of
-- handleProcessTrade, bestEffortMatchOrderForTrade and syntheticOrderFromTrade.
use upcow.Base.{
  ℕ, suc, String, Bool, false, not, ◌&&◌, ◌||◌, Option, none, some, List, [], ◌∷◌, if◌then◌else◌,
}
use upcow.Base.Int.{pos}
use upcow.Base.Text.{concat, trim_space}
use upcow.Base.Dict.{Dict, lookup, insert}
use upcow.Base.Float.{Float}
use upcow.Domain.Market.{
  Market, TokenType, no_token, up, down, no_side, eq_token, eq_side, eq_text, is_empty,
}
use upcow.Domain.Order.{Order, opened}
use upcow.Domain.Trade.{Trade}
use upcow.Engine.State.{Engine, write}

-- The token that an asset id stands for in a market.
unfoldable pub infer_token : Market → String → TokenType
infer_token m asset_id =
    if eq_text asset_id m.yes_asset_id
    then up
    else if eq_text asset_id m.no_asset_id
    then down
    else no_token

module _ ⦃fl : Float⦄ where
  open fl use {zero_f}

  -- The first of the ids under which an order is stored.
  unfoldable pub first_stored : Dict ℕ → List String → Option (String × ℕ)
  first_stored order_store [] = none
  first_stored order_store (id ∷ ids) = elim (lookup id order_store) [
    | none ↦ first_stored order_store ids
    | some r ↦ some (id, r)
  ]

  unfoldable pub by_taker : Dict ℕ → String → Option (String × ℕ)
  by_taker order_store taker =
      if is_empty taker then none else first_stored order_store (taker ∷ [])

  unfoldable pub suits : Trade → Order → Bool
  suits trade o =
      eq_text o.asset_id trade.asset_id
      && (eq_side trade.side no_side || eq_side o.side no_side || eq_side trade.side o.side)

  -- The loop over the open orders: a second one that suits makes the search give up.
  unfoldable pub scan_open : (ℕ → Order) → Trade → Option ℕ → Dict ℕ → Option ℕ
  scan_open heap trade candidate [] = candidate
  scan_open heap trade none ((k, r) ∷ m) =
      scan_open heap trade (if suits trade (heap r) then some r else none) m
  scan_open heap trade (some c) ((k, r) ∷ m) =
      let rest = scan_open heap trade (some c) m in if suits trade (heap r) then none else rest

  unfoldable pub best_effort_match_order_for_trade : Engine → Trade → Option ℕ
  best_effort_match_order_for_trade e trade =
      if is_empty trade.asset_id then none else scan_open e.heap trade none e.open_orders

  abbrev market_slug_of : Option Market → String
  market_slug_of none = ""
  market_slug_of (some m) = m.slug

  abbrev token_or_infer : TokenType → Option Market → String → TokenType
  token_or_infer t none asset_id = t
  token_or_infer t (some m) asset_id =
      if eq_token t no_token && not (is_empty asset_id) then infer_token m asset_id else t

  unfoldable pub synthetic_order : String → Trade → Order
  synthetic_order oid trade = record {
    order_id = oid;
    market_slug = market_slug_of trade.market;
    asset_id = trade.asset_id;
    side = trade.side;
    price = trade.price;
    size = trade.size;
    filled_size = zero_f;
    filled_price = none;
    grid_level = pos 0;
    token_type = token_or_infer trade.token_type trade.market trade.asset_id;
    hedge_order_id = none;
    created_at = trade.time;
    filled_at = none;
    canceled_at = none;
    is_entry_order = false;
    pair_order_id = none;
    status = opened;
    order_type = "";
    tick_size = "";
    neg_risk = none;
    skip_balance_check = false;
    bypass_risk_off = false;
    disable_size_adjust = false;
  }

  unfoldable pub synthetic_id : Trade → String
  synthetic_id trade =
      if is_empty (trim_space trade.order_id)
      then concat "ws_trade:" trade.id
      else trim_space trade.order_id

  unfoldable pub synthetic_at : Engine → Trade → Option ℕ → Engine × ℕ
  synthetic_at e trade (some r) = (e, r)
  synthetic_at e trade none = (
    record e {
      heap = write e.heap e.next_ref (synthetic_order (synthetic_id trade) trade);
      next_ref = suc e.next_ref;
    },
    e.next_ref,
  )

  unfoldable pub synthetic_order_from_trade : Engine → Trade → Engine × ℕ
  synthetic_order_from_trade e trade =
      synthetic_at e trade (lookup (synthetic_id trade) e.order_store)

  -- The trade, moved to the order's id, and the order.
  pub record Matched : Type 0 where
    pub engine : Engine
    pub trade : Trade
    pub order : ℕ

  -- `e.orderStore[order.OrderID] = order`.
  abbrev pub put_in_store : Engine → ℕ → Engine
  put_in_store e r = record e { order_store = insert (e.heap r).order_id r e.order_store }

  unfoldable pub match_synthetic : Trade → Engine × ℕ → Matched
  match_synthetic trade (e, r) = record { engine = put_in_store e r; trade = trade; order = r }

  unfoldable pub match_best_effort : Engine → Trade → Option ℕ → Matched
  match_best_effort e trade none = match_synthetic trade (synthetic_order_from_trade e trade)
  match_best_effort e trade (some r) = record {
    engine = put_in_store e r;
    trade = record trade { order_id = (e.heap r).order_id };
    order = r;
  }

  unfoldable pub match_makers : Engine → Trade → Option (String × ℕ) → Matched
  match_makers e trade none = match_best_effort e trade (best_effort_match_order_for_trade e trade)
  match_makers e trade (some (id, r)) = record {
    engine = put_in_store e r;
    trade = record trade { order_id = id };
    order = r;
  }

  unfoldable pub match_taker : Engine → Trade → Option (String × ℕ) → Matched
  match_taker e trade none = match_makers e trade (first_stored e.order_store trade.maker_order_ids)
  match_taker e trade (some (id, r)) = record {
    engine = put_in_store e r;
    trade = record trade { order_id = id };
    order = r;
  }

  unfoldable pub match_stored : Engine → Trade → Option ℕ → Matched
  match_stored e trade none = match_taker e trade (by_taker e.order_store trade.taker_order_id)
  match_stored e trade (some r) = record { engine = e; trade = trade; order = r }

  unfoldable pub match_trade : Engine → Trade → Matched
  match_trade e trade = match_stored e trade (lookup trade.order_id e.order_store)
