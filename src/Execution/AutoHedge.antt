-- ===== src/Execution/AutoHedge.antt =====
-- internal/execution/engine.go: tryAutoHedge, which sells what one leg has been filled beyond the other.
use upcow.Base.{String, false, List, [], ◌∷◌, Option, none, some, if◌then◌else◌}
use upcow.Base.Int.{ℤ, pos, sub64, mul64, lt_int, le_int}
use upcow.Base.Float.{Float}
use upcow.Base.Dict.{lookup}
use upcow.Domain.Market.{eq_side, buy, sell}
use upcow.Domain.Order.{Order, Time, pending}
use upcow.Execution.{ExecState}

module _ ⦃fl : Float⦄ where
  open fl use {F, zero_f, lt_f, le_f, add_f, sub_f, mul_f, div_f, of_int, trunc_int}

  unfoldable pub buys : List (Option Order) → List Order
  buys [] = []
  buys (none ∷ os) = buys os
  buys (some o ∷ os) = let rest = buys os in if eq_side o.side buy then o ∷ rest else rest

  abbrev or_zero : Option F → F
  or_zero none = zero_f
  or_zero (some x) = x

  abbrev pub filled_of : ExecState → Order → F
  filled_of st o = or_zero (lookup o.order_id st.filled)

  -- The order that has more, and how much more.
  abbrev pub excess_of : ExecState → Order → Order → Order × F
  excess_of st a b =
      if lt_f (sub_f (filled_of st a) (filled_of st b)) zero_f
      then (b, sub_f zero_f (sub_f (filled_of st a) (filled_of st b)))
      else (a, sub_f (filled_of st a) (filled_of st b))

  abbrev min_exposure : ExecState → F
  min_exposure st =
      if le_f st.req.hedge.min_exposure_to_hedge zero_f
      then div_f (of_int (pos 1)) (of_int (pos 10000))
      else st.req.hedge.min_exposure_to_hedge

  -- The best bid in cents, less the offset, and one cent at least.
  unfoldable pub close_cents : ExecState → F → ℤ
  close_cents st bid = if lt_int lowered (pos 1) then pos 1 else lowered
    where
      offset : ℤ
      offset =
          if le_int st.req.hedge.sell_price_offset_cents (pos 0)
          then pos 2
          else st.req.hedge.sell_price_offset_cents

      lowered : ℤ
      lowered =
          sub64
            (trunc_int
              (add_f (mul_f bid (of_int (pos 100))) (div_f (of_int (pos 1)) (of_int (pos 2)))))
            offset

  unfoldable pub close_order : Time → ExecState → Order → F → F → Order
  unfolding close_cents
  close_order now st o excess bid = record {
    order_id = "";
    market_slug = st.req.market_slug;
    asset_id = o.asset_id;
    side = sell;
    price = record { pips = mul64 (close_cents st bid) (pos 100) };
    size = excess;
    filled_size = zero_f;
    filled_price = none;
    grid_level = pos 0;
    token_type = o.token_type;
    hedge_order_id = none;
    created_at = now;
    filled_at = none;
    canceled_at = none;
    is_entry_order = false;
    pair_order_id = none;
    status = pending;
    order_type = "FAK";
    tick_size = "";
    neg_risk = none;
    skip_balance_check = false;
    bypass_risk_off = false;
    disable_size_adjust = false;
  }

  -- `best_bid` is the answer of GetBestPrice for an asset, `none` for an error.
  abbrev close_at : Time → ExecState → Order → F → Option F → Option Order
  close_at now st o excess none = none
  close_at now st o excess (some bid) =
      if le_f bid zero_f then none else some (close_order now st o excess bid)

  abbrev close_excess : Time → ExecState → (String → Option F) → Order × F → Option Order
  close_excess now st best_bid (o, excess) =
      if lt_f excess (min_exposure st) then none else close_at now st o excess (best_bid o.asset_id)

  abbrev hedge_first_two : Time → ExecState → (String → Option F) → List Order → Option Order
  hedge_first_two now st best_bid [] = none
  hedge_first_two now st best_bid (a ∷ []) = none
  hedge_first_two now st best_bid (a ∷ b ∷ os) = close_excess now st best_bid (excess_of st a b)

  -- The order that is placed, if any. Fewer than two created orders have fewer than two purchases.
  unfoldable pub try_auto_hedge : Time → (String → Option F) → ExecState → Option Order
  unfolding buys close_order
  try_auto_hedge now best_bid st = hedge_first_two now st best_bid (buys st.created)
