-- ===== src/Engine/Code.antt =====
-- internal/services/order_engine.go: the lists of definitions that a proof or a test sees through. A
-- proof that names one of these on its `unfolding` line opens all that the line here names.
use upcow.Base.Int.{add64}
use upcow.Base.Text.{String_discrete, has_prefix, contains, lower_contains, trim_space}
use upcow.Base.Dict.{lookup, insert, delete}
use upcow.Domain.Price.{to_decimal, price_from_decimal}
use upcow.Domain.Order.{is_final_status}
use upcow.Domain.Position.{add_fill, is_open}
use upcow.Engine.State.{emit_order_update}
use upcow.Engine.Merge.{
  merge_into_final, merge_fields, stronger, partial_status, is_fully_executed, stamp_canceled,
  converge, merge_order,
}
use upcow.Engine.Place.{
  order_amount, validate_fields, validate_place_order, lacks_balance, reserved, accept_order,
  place_valid, place_current, handle_place_order,
}
use upcow.Engine.Cancel.{
  is_non_cancelable_cancel_error, refuse_stored, refuse_cancel, begin_cancel, cancel_current,
  handle_cancel_order, settle_as_canceled, reopen, cancel_failed_open, cancel_failed,
  place_failed_open, place_failed,
}
use upcow.Engine.Update.{
  confirm_cancel, clone_in, absorb, rekey_open, rekey, settle_open, settle, store, dry_run_trade,
  paper_trades, drop_closed, finish_update, settle_rekeyed, update_succeeded, update_current,
  handle_update_order,
}
use upcow.Engine.Match.{
  infer_token, first_stored, by_taker, suits, scan_open, best_effort_match_order_for_trade,
  synthetic_order, synthetic_id, synthetic_at, synthetic_order_from_trade, match_synthetic,
  match_best_effort, match_makers, match_taker, match_stored, match_trade,
}
use upcow.Engine.Book.{
  first_token, is_token_wrong, book_token, correct_token, get_position_id, new_position,
  find_position, sold_size, book_fill, set_entry, update_position_from_trade,
}
use upcow.Engine.Trades.{
  average_price, fill_status, apply_fill, drop_filled, book_trade, ready_trades, replay,
  process_pending_trades, finish_trade, mark_seen, is_seen, process_fuel, process_current,
  handle_process_trade,
}
use upcow.Engine.Positions.{
  handle_update_balance, create_fresh, create_current, handle_create_position, update_found,
  handle_update_position, close_found, handle_close_position, handle_register_handler,
  handle_reset_cycle,
}
use upcow.Engine.Query.{only_open, snapshot, handle_query_state, handle_query_stats}
use upcow.Engine.Dispatch.{recover, handle_command, step, befall, run}

-- The cases of each handler, down to the changes that they make; merges, fills and lookups stay shut.
unfoldable pub place_code : Unit {0}
unfolding place_current place_valid accept_order handle_place_order
place_code = tt

unfoldable pub cancel_code : Unit {0}
unfolding handle_cancel_order cancel_current begin_cancel
cancel_code = tt

unfoldable pub failure_code : Unit {0}
unfolding cancel_failed cancel_failed_open settle_as_canceled reopen place_failed place_failed_open
failure_code = tt

unfoldable pub update_code : Unit {0}
unfolding handle_update_order update_current update_succeeded clone_in rekey rekey_open settle
    settle_open settle_rekeyed store finish_update drop_closed absorb failure_code
update_code = tt

unfoldable pub match_code : Unit {0}
unfolding match_trade match_stored match_taker match_makers match_best_effort match_synthetic
    synthetic_order_from_trade synthetic_at
match_code = tt

unfoldable pub position_code : Unit {0}
unfolding create_fresh create_current handle_create_position update_found handle_update_position
    close_found handle_close_position
position_code = tt

unfoldable pub account_code : Unit {0}
unfolding handle_update_balance handle_query_state handle_query_stats handle_reset_cycle
    handle_register_handler recover
account_code = tt

-- Everything, for tests at concrete inputs.
unfoldable pub engine_code : Unit {0}
unfolding run befall step handle_command place_code cancel_code update_code match_code position_code
    account_code order_amount validate_fields validate_place_order lacks_balance reserved
    refuse_stored refuse_cancel is_non_cancelable_cancel_error confirm_cancel dry_run_trade
    paper_trades infer_token first_stored by_taker suits scan_open best_effort_match_order_for_trade
    synthetic_order synthetic_id first_token is_token_wrong book_token correct_token get_position_id
    new_position find_position sold_size book_fill set_entry update_position_from_trade
    average_price fill_status apply_fill drop_filled book_trade ready_trades replay
    process_pending_trades finish_trade mark_seen is_seen process_fuel process_current
    handle_process_trade only_open snapshot merge_into_final merge_fields stronger partial_status
    is_fully_executed stamp_canceled converge merge_order is_final_status add_fill is_open
    emit_order_update to_decimal price_from_decimal lookup insert delete String_discrete has_prefix
    contains lower_contains trim_space add64
engine_code = tt
