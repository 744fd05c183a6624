-- ===== src/Execution/Process.antt =====
-- internal/execution/engine.go: process, placeAllLegs and OnOrderUpdate.
use upcow.Base.{
  ℕ, String, Bool, true, false, not, ◌&&◌, ◌+◌, List, [], ◌∷◌, Option, none, some, if◌then◌else◌,
  or_else,
}
use upcow.Base.Int.{ℤ, pos, lt_int, le_int}
use upcow.Base.Float.{Float}
use upcow.Base.Dict.{Dict, lookup, insert}
use upcow.Domain.Market.{is_empty, eq_text}
use upcow.Domain.Order.{Order, Time, pending}
use upcow.InFlight.{release}
use upcow.Execution.{
  LegError, invalid_leg, place_failed, LegIntent, AutoHedgeConfig, MultiLegRequest, MultiLegResult,
  QueuedReq, ExecState, ExecutionEngine,
}

module _ ⦃fl : Float⦄ where
  open fl use {F, zero_f, lt_f, le_f, of_int}

  -- A leg that is not an entry is not left to the exchange to be made larger.
  unfoldable pub leg_order : Time → MultiLegRequest → LegIntent → Order
  leg_order now req leg = record {
    order_id = "";
    market_slug = req.market_slug;
    asset_id = leg.asset_id;
    side = leg.side;
    price = leg.price;
    size = leg.size;
    filled_size = zero_f;
    filled_price = none;
    grid_level = pos 0;
    token_type = leg.token_type;
    hedge_order_id = none;
    created_at = now;
    filled_at = none;
    canceled_at = none;
    is_entry_order = leg.is_entry;
    pair_order_id = none;
    status = pending;
    order_type =
        if not leg.is_entry && eq_text leg.order_type "GTC" && lt_f leg.size (of_int (pos 5))
        then "FAK"
        else leg.order_type;
    tick_size = leg.tick_size;
    neg_risk = leg.neg_risk;
    skip_balance_check = false;
    bypass_risk_off = leg.bypass_risk_off;
    disable_size_adjust = leg.disable_size_adjust;
  }

  -- What PlaceOrder returns: an order and an error, each of which may be nil.
  pub record PlaceAnswer : Type 0 where
    pub order : Option Order
    pub error : Option String

  abbrev is_valid_leg : LegIntent → Bool
  is_valid_leg l =
      not (is_empty l.asset_id) && not (le_f l.size zero_f) && lt_int (pos 0) l.price.pips

  abbrev leg_error : Option String → Option LegError
  leg_error none = none
  leg_error (some e) = some (place_failed e)

  abbrev place_leg :
      (ℕ → Order → PlaceAnswer)
      → Time
      → MultiLegRequest
      → ℕ
      → LegIntent
      → Option Order × Option LegError
  place_leg place now req i leg =
      if is_valid_leg leg
      then (
        (place i (leg_order now req leg)).order,
        leg_error (place i (leg_order now req leg)).error,
      )
      else (none, some (invalid_leg i))

  abbrev and_then : Option Order × Option LegError → MultiLegResult → MultiLegResult
  and_then (o, e) r = record { created = o ∷ r.created; error = or_else e r.error }

  -- `place` is PlaceOrder, by the number of the leg. Of several errors the code returns the one that comes in
  -- first; here it is that of the first leg.
  unfoldable pub place_legs :
      (ℕ → Order → PlaceAnswer) → Time → MultiLegRequest → ℕ → List LegIntent → MultiLegResult
  unfolding leg_order
  place_legs place now req i [] = record { created = []; error = none }
  place_legs place now req i (l ∷ ls) =
      and_then (place_leg place now req i l) (place_legs place now req (i + 1) ls)

  unfoldable pub place_all_legs :
      (ℕ → Order → PlaceAnswer) → Time → MultiLegRequest → MultiLegResult
  unfolding place_legs
  place_all_legs place now req = place_legs place now req 0 req.legs

  -- The loop of Start takes the next request, and `process` begins.
  unfoldable pub start_process : QueuedReq → ExecutionEngine → ExecutionEngine
  start_process q e = record e {
    execs =
        insert q.id
          (record { id = q.id; req = q.req; created = []; filled = []; hedge_started = false })
          e.execs;
  }

  abbrev take_req : List QueuedReq → ExecutionEngine → ExecutionEngine
  take_req [] e = e
  take_req (q ∷ qs) e = start_process q (record e { req_c = qs })

  unfoldable pub start : ExecutionEngine → ExecutionEngine
  unfolding start_process
  start e = take_req e.req_c e

  abbrev map_order : String → Option Order → Dict String → Dict String
  map_order id none m = m
  map_order id (some o) m = if is_empty o.order_id then m else insert o.order_id id m

  abbrev map_orders : String → List (Option Order) → Dict String → Dict String
  map_orders id [] m = m
  map_orders id (o ∷ os) m = map_orders id os (map_order id o m)

  abbrev pub set_created :
      String → List (Option Order) → Option ExecState → Dict ExecState → Dict ExecState
  set_created id os none m = m
  set_created id os (some st) m = insert id (record st { created = os }) m

  -- The end of `process`, with its deferred release.
  unfoldable pub finish_process : QueuedReq → MultiLegResult → ExecutionEngine → ExecutionEngine
  unfolding release
  finish_process q r e = record e {
    in_flight = release e.in_flight q.req.in_flight_key;
    order_to_exec = map_orders q.id r.created e.order_to_exec;
    execs = set_created q.id r.created (lookup q.id e.execs) e.execs;
  }

  pub record HedgeLater : Type 0 where
    pub exec_id : String
    pub delay : ℤ

  abbrev pub delay_of : AutoHedgeConfig → ℤ
  delay_of h = if le_int h.delay (pos 0) then pos 2_000_000_000 else h.delay

  abbrev pub noted : Order → ExecState → ExecState
  noted o st = record st { filled = insert o.order_id o.filled_size st.filled }

  abbrev pub update_exec :
      Order → String → Option ExecState → ExecutionEngine → ExecutionEngine × List HedgeLater
  update_exec o id none e = (e, [])
  update_exec o id (some st) e =
      if st.req.hedge.enabled && not st.hedge_started
      then (
        record e { execs = insert id (record (noted o st) { hedge_started = true }) e.execs },
        record { exec_id = id; delay = delay_of st.req.hedge } ∷ [],
      )
      else (record e { execs = insert id (noted o st) e.execs }, [])

  abbrev pub update_known :
      Order → Option String → ExecutionEngine → ExecutionEngine × List HedgeLater
  update_known o none e = (e, [])
  update_known o (some id) e =
      if is_empty id then (e, []) else update_exec o id (lookup id e.execs) e

  -- `none` is a nil order.
  unfoldable pub on_order_update :
      Option Order → ExecutionEngine → ExecutionEngine × List HedgeLater
  on_order_update none e = (e, [])
  on_order_update (some o) e =
      if is_empty o.order_id then (e, []) else update_known o (lookup o.order_id e.order_to_exec) e
