-- ===== src/Examples/CatchUp.antt =====
-- A run of catch-up.
use a2a_events_python.Common.{ℕ, ◌≡◌, refl, arith, true, [], ◌∷◌, get, text_eq, put}
use a2a_events_python.Errors.{ok}
use a2a_events_python.Selectors.{matches}
use a2a_events_python.Cursor.{
  encode, digits, width_from, padded, offset_for, offset_of, split, rpartition, is_digits, int_from,
  parse_int,
}
use a2a_events_python.EventStore
use a2a_events_python.EventStore.{
  live_events, check_retained, read_from, to_offset, collect, within, has_more,
}
use a2a_events_python.SubscriptionStore
use a2a_events_python.SubscriptionStore.{
  mark, high_water, get_sub, record_ack, put_ack, set_high_water, update,
}
use a2a_events_python.Metrics.{incr, observe, add_to, append_to, labels_eq}
use a2a_events_python.Publisher.{now, read, get_topic, new_id, transmit, deref}
use a2a_events_python.Publisher.Send.{attempt_send, build_event, send_as}
use a2a_events_python.Publisher.Delivery.{
  deliver_one, deliver_inline, on_delivered, record_attempt, on_terminal, advance, move_cursor,
  raise_mark,
}
use a2a_events_python.Publisher.Delivery.Marks.{attempted}
use a2a_events_python.Publisher.Dispatch.{
  handle_record, handle_page, next_page, save_scan, catch_up_from,
}
use a2a_events_python.Publisher.Dispatch.Complete.{catch_up_from_complete}
use a2a_events_python.Publisher.Dispatch.Fuel.{catch_up_from_ends}
use a2a_events_python.Examples.{
  acked, cfg, env_with, first_event, second_event, orders, orders_topic, orders_log, refused, sub,
  sub_id, world_at,
}
use a2a_events_python.Examples.Store.{orders_log-IsValidLog, found_orders}
use a2a_events_python.Examples.Runs.{at_one, all_match, mark_at}

all_live :
    (t : ℕ) → live_events ((env_with acked).clock t) orders_log ≡ first_event ∷ second_event ∷ []
unfolding live_events
all_live t = refl

-- what has been caught up already ends the run after one page
run :
    catch_up_from (env_with acked) cfg 3 sub orders_topic orders 0 (world_at 1)
    ≡ (ok 1, (catch_up_from (env_with acked) cfg 3 sub orders_topic orders 0 (world_at 1)).1)
unfolding catch_up_from next_page handle_page handle_record save_scan read now get text_eq mark
    high_water EventStore.read check_retained live_events read_from to_offset collect within
    has_more encode digits width_from padded offset_for offset_of split rpartition is_digits
    int_from parse_int matches deliver_one deliver_inline get_topic new_id transmit attempt_send
    build_event send_as on_delivered record_attempt on_terminal advance move_cursor raise_mark deref
    get_sub SubscriptionStore.record_attempt record_ack put_ack set_high_water update incr observe
    add_to append_to labels_eq put
run = refl

catch_up_from_complete_example :
    attempted sub_id second_event.event_id
      (catch_up_from (env_with acked) cfg 3 sub orders_topic orders 0 (world_at 1)).1.subs
    ≡ true
catch_up_from_complete_example =
    catch_up_from_complete (env_with acked) cfg sub orders_topic second_event 1 (omega arith) at_one
      all_match orders_log orders_log-IsValidLog 9 refl (λ t. (first_event ∷ [], [], all_live t)) 3
      0 1 (world_at 1)
      (catch_up_from (env_with acked) cfg 3 sub orders_topic orders 0 (world_at 1)).1 found_orders
      (omega (arith, mark_at 1)) run

catch_up_from_ends_example :
    catch_up_from (env_with refused) cfg 3 sub orders_topic orders 0 (world_at 0)
    ≡ catch_up_from (env_with refused) cfg 8 sub orders_topic orders 0 (world_at 0)
catch_up_from_ends_example =
    catch_up_from_ends (env_with refused) cfg sub orders_topic orders orders_log
      orders_log-IsValidLog 9 refl (omega arith) (first_event ∷ second_event ∷ []) (λ t. all_live t)
      3 8 0 (world_at 0) found_orders (omega (arith, mark_at 0)) (omega (arith, mark_at 0))
      (omega (arith, mark_at 0))
