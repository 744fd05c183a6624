-- ===== src/Execution/Tests.antt =====
-- internal/execution/engine.go on decimals: two legs, their fills, and the theorems at them.
use upcow.Base.{ℕ, zero, suc, String, true, false, ◌≤◌, [], ◌∷◌, none, some, ◌≡◌, refl, arith}
use upcow.Base.Int.{ℤ, pos, add64, sub64, mul64, ◌+ℤ◌, ◌-ℤ◌}
use upcow.Base.Decimal.{decimal, mul_decimal, div_decimal, of_integer, nearest, whole}
use upcow.Base.Text.{String_discrete}
use upcow.Base.Dict.{lookup, insert, delete}
use upcow.Domain.Price.{to_decimal}
use upcow.Domain.Market.{up, down, buy}
use upcow.Domain.Order.{Order}
use upcow.InFlight.{
  new_in_flight_deduper, empty_shards, try_acquire, release, acquire_in, sweep, shard_index,
  get_shard, set_shard,
}
use upcow.Execution.{
  LegIntent, MultiLegRequest, Printer, QueuedReq, ExecutionEngine, ExecState, refused,
  duplicate_in_flight, new_execution_engine, compute_in_flight_key, submit,
}
use upcow.Execution.Process.{
  PlaceAnswer, leg_order, place_legs, place_all_legs, start_process, start, finish_process,
  on_order_update,
}
use upcow.Execution.AutoHedge.{buys, close_cents, close_order, try_auto_hedge}
use upcow.Execution.Once.{Event, updates, hedges_of, hedges_of-le}
use upcow.Execution.Gate.{submit_excludes}

-- A printer that suffices for one price.
abbrev printer : Printer
printer = record {
  print_int = λ n. "44";
  print_float = λ x. "0.4400";
  print_token = λ t. "up";
  print_side = λ s. "BUY";
  sort_strings = λ ts. ts;
}

abbrev leg : LegIntent
leg = record {
  name = "yes";
  asset_id = "yes";
  token_type = up;
  side = buy;
  price = record { pips = pos 4400 };
  size = pos 100_000;
  order_type = "GTC";
  tick_size = "";
  neg_risk = none;
  is_entry = true;
  bypass_risk_off = false;
  disable_size_adjust = false;
}

abbrev other_leg : LegIntent
other_leg = record leg {
  name = "no";
  asset_id = "no";
  token_type = down;
  price = record { pips = pos 5400 };
}

abbrev request : MultiLegRequest
request = record {
  name = "pair";
  market_slug = "btc-updown-15m-1767225600";
  legs = leg ∷ other_leg ∷ [];
  hedge = record {
    enabled = true;
    delay = pos 0;
    sell_price_offset_cents = pos 0;
    min_exposure_to_hedge = pos 0;
  };
  in_flight_key = "";
}

unfoldable test_code : Unit {0}
unfolding new_execution_engine compute_in_flight_key submit leg_order place_legs place_all_legs
    start_process start finish_process on_order_update buys close_cents close_order try_auto_hedge
    hedges_of to_decimal new_in_flight_deduper empty_shards try_acquire release acquire_in sweep
    shard_index get_shard set_shard lookup insert delete add64 sub64 mul64 ◌+ℤ◌ ◌-ℤ◌ mul_decimal
    div_decimal of_integer nearest whole String_discrete
test_code = tt

abbrev entered : ExecutionEngine
entered = (submit printer 1000 "exec_1000" true request new_execution_engine).0

submit_excludes_example :
    (submit printer 2000 "exec_2000" true request entered).1 ≡ refused duplicate_in_flight
unfolding test_code
submit_excludes_example =
    submit_excludes printer 1000 2000 "exec_1000" "exec_2000" true true request request
      (new_in_flight_deduper (pos 10_000_000_000) (pos 64)) [] new_execution_engine entered refl
      refl (omega arith) refl tt (omega arith) refl refl refl refl

-- The exchange gives the legs the ids "0" and "1".
abbrev exchange : ℕ → Order → PlaceAnswer
exchange zero o = record { order = some (record o { order_id = "0" }); error = none }
exchange (suc i) o = record { order = some (record o { order_id = "1" }); error = none }

abbrev queued : QueuedReq
queued = record { id = "exec_1000"; req = request }

abbrev begun : ExecutionEngine
begun = start entered

abbrev running : ExecutionEngine
running = finish_process queued (place_all_legs exchange 1000 request) begun

abbrev fill : String → ℤ → Event
fill id n = updates (some (record (leg_order 1000 request leg) { order_id = id; filled_size = n }))

-- The first leg is filled in full and the second in part. The hedge is scheduled once.
hedged_once :
    hedges_of "exec_1000"
      (fill "0" (pos 100_000) ∷ fill "1" (pos 70_000) ∷ fill "1" (pos 100_000) ∷ [])
      running
    ≡ 1
unfolding test_code
hedged_once = refl

-- A fill that comes before the orders are mapped is not seen.
early_fill_lost : hedges_of "exec_1000" (fill "0" (pos 100_000) ∷ []) begun ≡ 0
unfolding test_code
early_fill_lost = refl

hedges_of-le_example :
    hedges_of "exec_1000"
      (fill "0" (pos 100_000) ∷ fill "1" (pos 70_000) ∷ fill "1" (pos 100_000) ∷ [])
      running
    ≤ 1
hedges_of-le_example =
    hedges_of-le "exec_1000"
      (fill "0" (pos 100_000) ∷ fill "1" (pos 70_000) ∷ fill "1" (pos 100_000) ∷ []) running
      (tt, (tt, (tt, tt)))

abbrev filled_ten_seven : ExecState
filled_ten_seven = record {
  id = "exec_1000";
  req = request;
  created = (place_all_legs exchange 1000 request).created;
  filled = ("0", pos 100_000) ∷ ("1", pos 70_000) ∷ [];
  hedge_started = true;
}

-- Three shares of the first leg too many are sold two cents below the best bid.
hedge_sells_excess :
    try_auto_hedge 9000 (λ asset. some (pos 4300)) filled_ten_seven
    ≡ some (
        close_order 9000 filled_ten_seven
          (record (leg_order 1000 request leg) { order_id = "0" })
          (pos 30_000)
          (pos 4300))
unfolding test_code
hedge_sells_excess = refl

hedge_price : close_cents filled_ten_seven (pos 4300) ≡ pos 41
unfolding test_code
hedge_price = refl
