-- ===== src/Engine/Book.antt =====
-- internal/services/order_engine.go: updatePositionFromTrade and getPositionID.
use upcow.Base.{ℕ, String, Bool, false, not, ◌&&◌, Option, none, some, is_some, if◌then◌else◌}
use upcow.Base.Text.{concat}
use upcow.Base.Dict.{lookup, insert}
use upcow.Base.Float.{Float}
use upcow.Domain.Market.{Market, TokenType, no_token, up, down, buy, eq_token, eq_side, is_empty}
use upcow.Domain.Order.{Order}
use upcow.Domain.Trade.{Trade}
use upcow.Domain.Position.{Position, open_position, closed_position, is_open_status, add_fill}
use upcow.Engine.State.{Engine, write_order}
use upcow.Engine.Match.{infer_token}

abbrev token_text : TokenType → String
token_text no_token = ""
token_text up = "up"
token_text down = "down"

module _ ⦃fl : Float⦄ where
  open fl use {F, zero_f, add_f, sub_f, lt_f, le_f}

  -- What the market says of the order's asset; `no_token` where it says nothing.
  abbrev market_token : Option Market → String → TokenType
  market_token none asset_id = no_token
  market_token (some m) asset_id = if is_empty asset_id then no_token else infer_token m asset_id

  -- The order's token, else the trade's.
  abbrev given_token : Order → Trade → TokenType
  given_token order trade =
      if eq_token order.token_type no_token then trade.token_type else order.token_type

  -- The token from the order or the trade, else from the market, before the check against the market.
  unfoldable pub first_token : Order → Trade → TokenType
  first_token order trade =
      if eq_token (given_token order trade) no_token
      then market_token trade.market order.asset_id
      else given_token order trade

  -- The market knows the asset and contradicts the token at hand.
  unfoldable pub is_token_wrong : Order → Trade → Bool
  is_token_wrong order trade =
      not (eq_token (market_token trade.market order.asset_id) no_token)
      && not (eq_token (first_token order trade) (market_token trade.market order.asset_id))

  -- The token for a position that has none.
  unfoldable pub book_token : Order → Trade → TokenType
  book_token order trade =
      if is_token_wrong order trade
      then market_token trade.market order.asset_id
      else first_token order trade

  unfoldable pub correct_token : Order → Trade → Order
  correct_token order trade =
      if is_token_wrong order trade
      then record order { token_type = market_token trade.market order.asset_id }
      else order

  unfoldable pub get_position_id : Order → String
  get_position_id order =
      concat order.market_slug
        (concat "_" (concat order.asset_id (concat "_" (token_text order.token_type))))

  unfoldable pub new_position : String → TokenType → ℕ → Order → Trade → Position
  new_position pid token r order trade = record {
    id = pid;
    market_slug = order.market_slug;
    market = trade.market;
    entry_order = some r;
    hedge_order = none;
    entry_price = trade.price;
    entry_time = trade.time;
    exit_order = none;
    exit_price = none;
    exit_time = none;
    size = zero_f;
    token_type = token;
    status = open_position;
    unhedged = false;
    cost_basis = zero_f;
    avg_price = zero_f;
    total_filled_size = zero_f;
  }

  unfoldable pub find_position : TokenType → ℕ → Order → Trade → Option Position → Position
  find_position token r order trade none = new_position (get_position_id order) token r order trade
  find_position token r order trade (some p) = record p {
    token_type = if eq_token p.token_type no_token then token else p.token_type;
  }

  -- `x == 0` on floats: it fails on a NaN.
  abbrev pub is_zero : F → Bool
  is_zero x = le_f x zero_f && le_f zero_f x

  unfoldable pub sold_size : F → F → F
  sold_size held sold = if lt_f (sub_f held sold) zero_f then zero_f else sub_f held sold

  abbrev close_if_empty : ℕ → Trade → Position → Position
  close_if_empty r trade p =
      if is_zero p.size && is_open_status p.status
      then record p {
        exit_price = some trade.price;
        exit_time = some trade.time;
        exit_order = some r;
        status = closed_position;
      }
      else p

  unfoldable pub book_fill : ℕ → Trade → Position → Position
  book_fill r trade p =
      if eq_side trade.side buy
      then add_fill (record p { size = add_f p.size trade.size }) trade.size trade.price
      else close_if_empty r trade
          (add_fill (record p { size = sold_size p.size trade.size }) trade.size trade.price)

  unfoldable pub set_entry : ℕ → Trade → Position → Position
  set_entry r trade p =
      if is_some p.entry_order
      then p
      else record p { entry_order = some r; entry_price = trade.price; entry_time = trade.time }

  -- `r` is the order that the trade belongs to.
  unfoldable pub update_position_from_trade : Engine → Trade → ℕ → Engine
  update_position_from_trade e trade r = record written {
    positions =
        insert pid
          (set_entry r trade (
            book_fill r trade
              (find_position (book_token (e.heap r) trade) r order trade (lookup pid e.positions))))
          e.positions;
  }
    where
      order : Order
      order = correct_token (e.heap r) trade

      pid : String
      pid = get_position_id order

      written : Engine
      written = write_order e r order
