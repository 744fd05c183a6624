-- ===== src/Engine/Merge.antt =====
-- internal/services/order_engine.go: cloneOrder and mergeOrderInPlace.
-- `cloneOrder` copies every field and every value behind a pointer, so on these values it is the
-- identity; the new object is made where the handler calls it.
use upcow.Base.{Bool, not, ◌&&◌, ◌||◌, Option, some, or_else, if◌then◌else◌}
use upcow.Base.Int.{pos, eq_int}
use upcow.Base.Float.{Float}
use upcow.Domain.Market.{no_token, no_side, eq_token, eq_side, is_empty}
use upcow.Domain.Order.{
  Order, OrderStatus, Time, pending, opened, partial, canceling, filled, canceled, failed,
  eq_status, is_final_status,
}

module _ ⦃fl : Float⦄ where
  open fl use {F, zero_f, lt_f, le_f}

  -- The larger, the first where neither is.
  abbrev pub raise_to : F → F → F
  raise_to d s = if lt_f d s then s else d

  -- A final status meets one that is not: only what was executed is filled in.
  unfoldable pub merge_into_final : Order → Order → Order
  merge_into_final dst src = record dst {
    filled_size = raise_to dst.filled_size src.filled_size;
    filled_at = or_else dst.filled_at src.filled_at;
  }

  unfoldable pub merge_fields : Order → Order → Order
  merge_fields dst src = record dst {
    market_slug = if is_empty dst.market_slug then src.market_slug else dst.market_slug;
    asset_id = if is_empty dst.asset_id then src.asset_id else dst.asset_id;
    token_type = if eq_token dst.token_type no_token then src.token_type else dst.token_type;
    side = if eq_side dst.side no_side then src.side else dst.side;
    price = if eq_int dst.price.pips (pos 0) then src.price else dst.price;
    size = raise_to dst.size src.size;
    filled_size = raise_to dst.filled_size src.filled_size;
    filled_price = or_else src.filled_price dst.filled_price;
    filled_at = or_else dst.filled_at src.filled_at;
    canceled_at = or_else dst.canceled_at src.canceled_at;
  }

  -- The status where nothing was executed: the stronger of the two.
  unfoldable pub stronger : OrderStatus → OrderStatus → OrderStatus
  stronger cur inc =
      if eq_status cur filled || eq_status inc filled
      then filled
      else if eq_status cur failed || eq_status inc failed
      then failed
      else if eq_status cur canceled || eq_status inc canceled
      then canceled
      else if eq_status cur canceling || eq_status inc canceling
      then canceling
      else if eq_status cur opened || eq_status inc opened || eq_status inc partial
      then opened
      else pending

  -- The status where a part was executed.
  unfoldable pub partial_status : OrderStatus → OrderStatus
  partial_status cur =
      if not (eq_status cur failed) && not (eq_status cur filled) then partial else cur

  unfoldable pub is_fully_executed : Order → Bool
  is_fully_executed o = lt_f zero_f o.size && le_f o.size o.filled_size

  -- The cancel time is set only where the result is `canceled` by the rules above.
  unfoldable pub stamp_canceled : Time → OrderStatus → Option Time → Option Time
  stamp_canceled now status at = if eq_status status canceled then or_else at (some now) else at

  unfoldable pub converge : Time → Order → OrderStatus → Order
  converge now dst inc =
      if is_fully_executed dst
      then record dst {
        status = filled;
        filled_at = or_else dst.filled_at (some now);
        filled_size = dst.size;
      }
      else if lt_f zero_f dst.filled_size
      then record dst { status = partial_status dst.status }
      else record dst {
        status = stronger dst.status inc;
        canceled_at = stamp_canceled now (stronger dst.status inc) dst.canceled_at;
      }

  -- `mergeOrderInPlace(dst, src)`: the value of `*dst` afterwards.
  unfoldable pub merge_order : Time → Order → Order → Order
  merge_order now dst src =
      if is_final_status dst && not (is_final_status src)
      then merge_into_final dst src
      else converge now (merge_fields dst src) src.status
