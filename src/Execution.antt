-- ===== src/Execution.antt =====
-- internal/execution/engine.go: requests of several orders, gated by the deduper, placed together, and hedged
-- once where their fills differ. `process` is split where it waits for the orders. An execution is known by its
-- id, which has the time of its request, and executions have different ids.
pub mod Process
pub mod AutoHedge
pub mod Once
pub mod Gate
pub mod Tests
use upcow.Base.{
  ℕ, String, Bool, true, false, not, ◌&&◌, ◌||◌, ◌+◌, List, [], ◌∷◌, ◌++◌, Option, none, some,
  is_some, if◌then◌else◌, ltb, length, or_else,
}
use upcow.Base.Int.{ℤ, pos, mul64, lt_int, le_int}
use upcow.Base.Float.{Float}
use upcow.Base.Text.{concat}
use upcow.Base.Dict.{Dict, lookup, insert}
use upcow.Domain.Price.{Price, to_decimal}
use upcow.Domain.Market.{TokenType, Side, is_empty, eq_text}
use upcow.Domain.Order.{Order, Time, pending}
use upcow.InFlight.{InFlightDeduper, new_in_flight_deduper, try_acquire, release}

-- What `Submit` refuses, and why a leg was not placed.
pub data SubmitError : Type 0 where
  not_initialized no_market_slug no_legs duplicate_in_flight context_done : SubmitError

pub data LegError : Type 0 where
  invalid_leg : ℕ → LegError
  place_failed : String → LegError

module _ ⦃fl : Float⦄ where
  open fl use {F, zero_f, lt_f, le_f, mul_f, of_int, trunc_int}

  pub record LegIntent : Type 0 where
    pub name : String
    pub asset_id : String
    pub token_type : TokenType
    pub side : Side
    pub price : Price
    pub size : F
    pub order_type : String
    pub tick_size : String
    pub neg_risk : Option Bool
    pub is_entry : Bool
    pub bypass_risk_off : Bool
    pub disable_size_adjust : Bool

  pub record AutoHedgeConfig : Type 0 where
    pub enabled : Bool
    pub delay : ℤ
    pub sell_price_offset_cents : ℤ
    pub min_exposure_to_hedge : F

  pub record MultiLegRequest : Type 0 where
    pub name : String
    pub market_slug : String
    pub legs : List LegIntent
    pub hedge : AutoHedgeConfig
    pub in_flight_key : String

  pub record MultiLegResult : Type 0 where
    pub created : List (Option Order)
    pub error : Option LegError

  pub record QueuedReq : Type 0 where
    pub id : String
    pub req : MultiLegRequest

  -- `hedge_started` says whether `hedgeOnce` has run.
  pub record ExecState : Type 0 where
    pub id : String
    pub req : MultiLegRequest
    pub created : List (Option Order)
    pub filled : Dict F
    pub hedge_started : Bool

  pub record ExecutionEngine : Type 0 where
    pub in_flight : Option InFlightDeduper
    pub req_c : List QueuedReq
    pub order_to_exec : Dict String
    pub execs : Dict ExecState

  unfoldable pub new_execution_engine : ExecutionEngine
  unfolding new_in_flight_deduper
  new_execution_engine = record {
    in_flight = some (new_in_flight_deduper (pos 10_000_000_000) (pos 64));
    req_c = [];
    order_to_exec = [];
    execs = [];
  }

  -- What the key is printed with: `%d` and `%.4f`, the names of tokens and sides, and `sort.Strings`.
  pub record Printer : Type 0 where
    pub print_int : ℤ → String
    pub print_float : F → String
    pub print_token : TokenType → String
    pub print_side : Side → String
    pub sort_strings : List String → List String

  abbrev is_entry_leg : LegIntent → Bool
  is_entry_leg l = l.is_entry || eq_text l.order_type "FAK" || eq_text l.name "taker_buy_winner"

  abbrev entry_leg : List LegIntent → Option LegIntent
  entry_leg [] = none
  entry_leg (l ∷ ls) = if is_entry_leg l then some l else entry_leg ls

  abbrev bar : String → String → String
  bar s t = concat s (concat "|" t)

  abbrev entry_part : Printer → LegIntent → String
  entry_part p l = bar l.asset_id (
      bar (p.print_token l.token_type) (
        bar (p.print_side l.side)
          (concat (p.print_int (trunc_int (mul_f (to_decimal l.price) (of_int (pos 100))))) "c")))

  abbrev leg_part : Printer → LegIntent → String
  leg_part p l = bar l.asset_id (
      bar (p.print_token l.token_type) (
        bar (p.print_side l.side)
          (bar (p.print_float (to_decimal l.price)) (bar (p.print_float l.size) l.order_type))))

  abbrev leg_parts : Printer → List LegIntent → List String
  leg_parts p [] = []
  leg_parts p (l ∷ ls) = leg_part p l ∷ leg_parts p ls

  abbrev join_bars : String → List String → String
  join_bars s [] = s
  join_bars s (t ∷ ts) = join_bars (concat s (concat "||" t)) ts

  abbrev key_parts : Printer → List LegIntent → Option LegIntent → List String
  key_parts p legs (some l) = entry_part p l ∷ []
  key_parts p legs none = p.sort_strings (leg_parts p legs)

  unfoldable pub compute_in_flight_key : Printer → MultiLegRequest → String
  unfolding to_decimal
  compute_in_flight_key p req =
      join_bars req.market_slug (key_parts p req.legs (entry_leg req.legs))

  abbrev pub with_key : Printer → MultiLegRequest → MultiLegRequest
  with_key p req =
      if is_empty req.in_flight_key
      then record req { in_flight_key = compute_in_flight_key p req }
      else req

  pub data Submitted : Type 0 where
    accepted : String → Submitted
    refused : SubmitError → Submitted

  -- The queue holds 512 requests. Where it is full a request waits, and the loop of `Start` may take one off.
  abbrev with_room : List QueuedReq → List QueuedReq
  with_room [] = []
  with_room (q ∷ qs) = if ltb (length (q ∷ qs)) 512 then q ∷ qs else qs

  -- `takes_room` says which case `select` takes: a place in the queue, now or later, or a context that is done.
  abbrev enqueue : Bool → QueuedReq → ExecutionEngine → ExecutionEngine × Submitted
  enqueue takes_room q e =
      if takes_room
      then (record e { req_c = with_room e.req_c ++ q ∷ [] }, accepted q.id)
      else (record e { in_flight = release e.in_flight q.req.in_flight_key }, refused context_done)

  abbrev pub acquired :
      Bool
      → QueuedReq
      → ExecutionEngine
      → Option InFlightDeduper × Bool
      → ExecutionEngine × Submitted
  acquired takes_room q e (d, false) = (record e { in_flight = d }, refused duplicate_in_flight)
  acquired takes_room q e (d, true) = enqueue takes_room q (record e { in_flight = d })

  -- `now` is the clock, `id` the new id that holds it.
  unfoldable pub submit :
      Printer
      → Time
      → String
      → Bool
      → MultiLegRequest
      → ExecutionEngine
      → ExecutionEngine × Submitted
  unfolding compute_in_flight_key try_acquire release
  submit p now id takes_room req e =
      if is_empty req.market_slug
      then (e, refused no_market_slug)
      else if ltb (length req.legs) 1
      then (e, refused no_legs)
      else acquired takes_room (record { id = id; req = with_key p req }) e
          (try_acquire now e.in_flight (with_key p req).in_flight_key)

  -- The nil checks: without an engine, or without its operations, nothing is done.
  unfoldable pub submit_checked :
      Bool
      → Printer
      → Time
      → String
      → Bool
      → MultiLegRequest
      → Option ExecutionEngine
      → Option ExecutionEngine × Submitted
  submit_checked has_ops p now id takes_room req none = (none, refused not_initialized)
  submit_checked has_ops p now id takes_room req (some e) =
      if has_ops
      then (let (e', answer) = submit p now id takes_room req e in (some e', answer))
      else (some e, refused not_initialized)
