-- ===== src/Engine/Query.antt =====
-- internal/services/order_engine.go: handleQueryState and handleQueryStats, which only read.
use upcow.Base.{ℕ, String, Option, none, some, List, [], ◌∷◌, or_else, if◌then◌else◌}
use upcow.Base.Dict.{Dict, lookup}
use upcow.Base.Float.{Float}
use upcow.Domain.Market.{is_empty}
use upcow.Domain.Position.{Position, is_open}
use upcow.Engine.State.{
  Engine, Outcome, reply_state, reply_stats, StateSnapshot, order_missing, position_missing,
  query_needs_order_id, query_needs_position_id, QueryType, all_orders, open_orders_query,
  all_positions, open_positions, balance_query, order_query, position_query,
}

abbrev values {ℓ} : {V : Type ℓ} → Dict V → List V
values [] = []
values ((k, v) ∷ m) = v ∷ values m

module _ ⦃fl : Float⦄ where
  unfoldable pub only_open : List Position → List Position
  only_open [] = []
  only_open (p ∷ ps) = let rest = only_open ps in if is_open p then p ∷ rest else rest

  abbrev blank : Engine → StateSnapshot
  blank e = record {
    balance = e.balance;
    orders = [];
    positions = [];
    open_orders = [];
    order = none;
    position = none;
    error = none;
  }

  abbrev found_order : Engine → String → Option ℕ → StateSnapshot
  found_order e oid none = record (blank e) { error = some (order_missing oid) }
  found_order e oid (some r) = record (blank e) { order = some r }

  abbrev found_position : Engine → String → Option Position → StateSnapshot
  found_position e pid none = record (blank e) { error = some (position_missing pid) }
  found_position e pid (some p) = record (blank e) { position = some p }

  unfoldable pub snapshot : Engine → QueryType → String → String → StateSnapshot
  snapshot e all_orders oid pid = record (blank e) { orders = values e.order_store }
  snapshot e open_orders_query oid pid = record (blank e) { open_orders = values e.open_orders }
  snapshot e all_positions oid pid = record (blank e) { positions = values e.positions }
  snapshot e open_positions oid pid = record (blank e) {
    positions = only_open (values e.positions);
  }
  snapshot e balance_query oid pid = blank e
  snapshot e order_query oid pid =
      if is_empty oid
      then record (blank e) { error = some query_needs_order_id }
      else found_order e oid (or_else (lookup oid e.order_store) (lookup oid e.open_orders))
  snapshot e position_query oid pid =
      if is_empty pid
      then record (blank e) { error = some query_needs_position_id }
      else found_position e pid (lookup pid e.positions)

  unfoldable pub handle_query_state : Engine → QueryType → String → String → Outcome
  handle_query_state e query oid pid = (e, reply_state (snapshot e query oid pid) ∷ [])

  unfoldable pub handle_query_stats : Engine → Outcome
  handle_query_stats e = (e, reply_stats e.stats ∷ [])
