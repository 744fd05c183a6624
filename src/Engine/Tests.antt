-- ===== src/Engine/Tests.antt =====
-- internal/services/order_engine.go: one life of an order on decimals, and the theorems at it.
use upcow.Base.{
  ℕ, true, false, none, some, List, [], ◌∷◌, ◌≡◌, refl, arith, ◌⊎◌, if◌then◌else◌, ◌==◌, ◌<◌, inr,
  false,
}
use upcow.Base.Int.{pos, ◌+ℤ◌, ◌-ℤ◌, le_int}
use upcow.Base.Text.{String_discrete, has_prefix}
use upcow.Base.Dict.{lookup}
use upcow.Base.Decimal.{
  decimal, decimal-IsOrdered, mul_decimal, div_decimal, of_integer, nearest, whole,
}
use upcow.Domain.Market.{buy, sell, up}
use upcow.Domain.Order.{
  Order, no_status, opened, partial, canceling, filled, canceled, is_final_status,
}
use upcow.Domain.Trade.{Trade}
use upcow.Engine.State.{
  Engine, Env, place_order, cancel_order, update_order, process_trade, update_balance, reset_cycle,
  new_order_engine,
}
use upcow.Engine.Merge.{merge_order}
use upcow.Engine.Update.{confirm_cancel}
use upcow.Engine.Dispatch.{handle_command, Event, received, assigned, run}
use upcow.Engine.Code.{engine_code}
use upcow.Engine.Isolation.{IsDropped, handle_command-IsDropped}
use upcow.Engine.Pending.{process_trade_twice}
use upcow.Engine.MergeLaws.{merge_order_keeps_filled, merge_order_grows}
use upcow.Engine.Money.{
  IsAdmissible, IsRefused, IsAccepted, failed_after, place_order_cases, failure_credits,
}
use upcow.Engine.Balance.{handle_command-balance, run-balance}
use upcow.Engine.Late.{
  late_update_replaces, renamed_opens_twice, canceled_part_stays_open, reset-IsDropped,
}
use upcow.Engine.Repeat.{merge_order_twice}
use upcow.Engine.Sound.{Others, is_shut}
use upcow.Engine.Sound.Run.{IsProperRun, run-open_orders}

abbrev env : Env
env = record { now = 1000; stamp = "17" }

-- Ten shares at 0.6.
abbrev new_order : Order
new_order = record {
  order_id = "local";
  market_slug = "btc";
  asset_id = "yes";
  side = buy;
  price = record { pips = pos 6000 };
  size = pos 100000;
  filled_size = pos 0;
  filled_price = none;
  grid_level = pos 0;
  token_type = up;
  hedge_order_id = none;
  created_at = 0;
  filled_at = none;
  canceled_at = none;
  is_entry_order = true;
  pair_order_id = none;
  status = no_status;
  order_type = "GTC";
  tick_size = "";
  neg_risk = none;
  skip_balance_check = false;
  bypass_risk_off = false;
  disable_size_adjust = false;
}

-- The caller's order is object 0; object 1 is the server's answer to it.
abbrev objects : ℕ → Order
objects r = if r == 0 then new_order else record new_order { order_id = "server"; status = opened }

abbrev start : Engine
start = new_order_engine objects 2 (pos 10000) false

abbrev half_filled : Trade
half_filled = record {
  id = "t1";
  order_id = "server";
  taker_order_id = "";
  maker_order_ids = [];
  asset_id = "yes";
  side = buy;
  price = record { pips = pos 5900 };
  size = pos 50000;
  token_type = up;
  market = none;
  time = 900;
  fee = pos 0;
}

-- At the end another goroutine fills the order behind the engine's back.
abbrev life : List Event
life =
    received env (update_balance (pos 1000000) "USDC")
    ∷ received env (place_order (pos 1) (some 0))
    ∷ received env (update_order "update_local" (pos 1) (some 1) none "local")
    ∷ received env (process_trade (pos 1) (some half_filled))
    ∷ assigned 0 (record new_order { order_id = "server"; status = filled })
    ∷ []

-- The caller's order is one that others may close.
instance executor : Others
executor = record { may_close = λ r. r == 0 }

-- Everything that the run below computes with.
unfoldable test_code : Unit {0}
unfolding engine_code new_order_engine ◌+ℤ◌ ◌-ℤ◌ mul_decimal div_decimal of_integer nearest whole
test_code = tt

life_opens : lookup "server" (run start life).0.open_orders ≡ some 0
unfolding test_code
life_opens = refl

-- Six of the hundred dollars are set aside.
life_balance : (run start life).0.balance ≡ pos 940000
unfolding test_code
life_balance = refl

life_status : ((run start life).0.heap 0).status ≡ filled
unfolding test_code
life_status = refl

life-IsProperRun : IsProperRun start life
unfolding test_code executor
life-IsProperRun =
    (tt, ((omega arith, λ k p. absurd (cc)), (omega arith, (tt, (inr (refl, λ _. refl), tt)))))

abbrev after_life : Engine
after_life = (run start life).0

run-open_orders_example :
    (lookup "server" after_life.order_store ≡ some 0)
    × (is_shut 0 (after_life.heap 0) ≡ false)
    × ((after_life.heap 0).order_id ≡ "server")
    × (0 < after_life.next_ref)
run-open_orders_example =
    run-open_orders objects 2 (pos 10000) false life "server" 0 life-IsProperRun life_opens

process_trade_twice_example :
    let e = (handle_command env start (process_trade (pos 1) (some half_filled))).0 in
    handle_command env e (process_trade (pos 1) (some half_filled)) ≡ (e, [])
unfolding new_order_engine String_discrete
process_trade_twice_example =
    process_trade_twice env env start half_filled half_filled (pos 1) refl refl refl

handle_command-IsDropped_example :
    IsDropped start (pos 7) (handle_command env start (place_order (pos 7) (some 0)))
unfolding new_order_engine
handle_command-IsDropped_example =
    handle_command-IsDropped env start (place_order (pos 7) (some 0)) (pos 7) refl
      (λ e. ground arith)

-- An order is open under its local id; the synchronisation finds the server's.
abbrev open_engine : Engine
open_engine = record start {
  open_orders = ("local", 0) ∷ [];
  order_store = ("local", 0) ∷ [];
  heap = λ r. record new_order { status = opened };
}

renamed_opens_twice_example :
    let o = record new_order { order_id = "server"; status = opened } in
    let e' =
      (run open_engine (
        assigned 0 o
        ∷ received env (update_order "sync_update_local" (pos 1) (some 0) none "")
        ∷ [])).0 in
    (lookup "local" e'.open_orders ≡ some 0)
    × (lookup "server" e'.open_orders ≡ some 2)
    × (e'.heap 0 ≡ o)
    × (e'.heap 2 ≡ o)
unfolding new_order_engine lookup has_prefix String_discrete
renamed_opens_twice_example =
    renamed_opens_twice env open_engine "sync_update_local" "local" "server" 0 (omega arith) refl
      refl refl refl

-- The news that half of an order was executed when it was canceled.
abbrev canceled_part_engine : Engine
canceled_part_engine = record start {
  open_orders = ("server", 0) ∷ [];
  order_store = ("server", 0) ∷ [];
  heap = λ r. record new_order {
    order_id = "server";
    status = if r == 0 then opened else canceled;
    filled_size = pos 50000;
  };
}

canceled_part_stays_open_example :
    let e =
      (handle_command env canceled_part_engine (update_order "ws" (pos 1) (some 1) none "")).0 in
    (lookup "server" e.open_orders ≡ some 0) × ((e.heap 0).status ≡ partial)
unfolding new_order_engine lookup is_final_status String_discrete
canceled_part_stays_open_example =
    canceled_part_stays_open env canceled_part_engine "ws" 1 0 (omega arith) (omega arith) refl refl
      refl refl refl refl refl

-- A trade of the stored order "server" is pending when another one comes.
abbrev waiting_engine : Engine
waiting_engine = record canceled_part_engine { pending_trades = ("t1", half_filled) ∷ [] }

reset-IsDropped_example :
    let e = (handle_command env start (reset_cycle (pos 5))).0 in
    IsDropped e (pos 1) (handle_command env e (cancel_order (pos 1) "server"))
unfolding new_order_engine
reset-IsDropped_example =
    reset-IsDropped env start (pos 5) (cancel_order (pos 1) "server") (λ e. ground arith) refl

-- A hundred dollars.
abbrev funded : Engine
funded = record start { balance = pos 1_000_000 }

place_order_cases_example :
    IsRefused funded (handle_command env funded (place_order (pos 1) (some 0)))
    ⊎ IsAccepted env funded (pos 1) 0 (handle_command env funded (place_order (pos 1) (some 0)))
place_order_cases_example = place_order_cases env funded (pos 1) 0

-- An order to sell needs no balance, and its failure adds six dollars to none.
abbrev selling : Engine
selling = record start { heap = λ r. record new_order { side = sell } }

selling-IsAdmissible : IsAdmissible selling 0
unfolding test_code
selling-IsAdmissible = (refl, refl)

failure_credits_example :
    (failed_after env env selling 0 "update_local" "timeout" "local").balance ≡ pos 60000
unfolding test_code
failure_credits_example =
    failure_credits env env selling 0 "update_local" "timeout" "local" selling-IsAdmissible

-- The order "server" was filled; then the exchange still says that it is open.
abbrev filled_order : Order
filled_order = record new_order { order_id = "server"; status = filled; filled_size = pos 100000 }

abbrev closed_engine : Engine
closed_engine = record start {
  order_store = ("server", 0) ∷ [];
  heap = λ r.
      if r == 0 then filled_order else record new_order { order_id = "server"; status = opened };
}

late_update_replaces_example :
    let e = (handle_command env closed_engine (update_order "sync" (pos 1) (some 1) none "")).0 in
    (lookup "server" e.order_store ≡ some 2)
    × (e.heap 2
        ≡ confirm_cancel env "sync" (record new_order { order_id = "server"; status = opened }))
unfolding new_order_engine lookup
late_update_replaces_example = late_update_replaces env closed_engine "sync" 1 refl

abbrev cancels : Order
cancels = record new_order { status = canceling }

abbrev half_done : Order
half_done = record cancels { filled_size = pos 50000 }

merge_order_keeps_filled_example : (merge_order 5 filled_order cancels).status ≡ filled
merge_order_keeps_filled_example = merge_order_keeps_filled 5 filled_order cancels refl

merge_order_twice_example :
    merge_order 9 (merge_order 5 cancels half_done) half_done ≡ merge_order 5 cancels half_done
merge_order_twice_example = merge_order_twice decimal-IsOrdered 5 9 cancels half_done refl

-- Twelve of ten shares: the news is cut off at ten, and raises the size when it comes again.
abbrev overfilled : Order
overfilled = record new_order { status = opened; filled_size = pos 120000 }

overfill_grows :
    ((merge_order 5 new_order overfilled).filled_size ≡ pos 100000)
    × ((merge_order 9 (merge_order 5 new_order overfilled) overfilled).filled_size ≡ pos 120000)
unfolding test_code
overfill_grows = (refl, refl)

merge_order_grows_example :
    le_int (pos 50000) (merge_order 5 half_done filled_order).filled_size ≡ true
merge_order_grows_example = merge_order_grows decimal-IsOrdered 5 half_done filled_order refl

handle_command-balance_example :
    (handle_command env funded (place_order (pos 1) (some 0))).0.balance ≡ pos 940000
unfolding test_code
handle_command-balance_example =
    handle_command-balance env funded (place_order (pos 1) (some 0)) refl

run-balance_example :
    let xs : List Event =
      received env (process_trade (pos 1) (some half_filled))
      ∷ assigned 0 new_order
      ∷ received env (reset_cycle (pos 2))
      ∷ [] in
    (run start xs).0.balance ≡ start.balance
unfolding new_order_engine
run-balance_example =
    run-balance start
      (received env (process_trade (pos 1) (some half_filled))
        ∷ assigned 0 new_order
        ∷ received env (reset_cycle (pos 2))
        ∷ [])
      refl (refl, (refl, (refl, tt)))
