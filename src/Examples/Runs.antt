-- ===== src/Examples/Runs.antt =====
-- Runs of the publisher: a page, a delivery, a failed retry, and the life of a subscription.
use Prim.Native.Nat.{max}
use a2a_events_python.Common.{
  ℕ, ◌+◌, ◌<◌, ◌≤◌, ◌≡◌, refl, ◌⊎◌, arith, true, none, some, [], ◌∷◌, text, text_eq, get,
}
use a2a_events_python.Errors.{ok, raise, Exn}
use a2a_events_python.Models.{Subscription, active}
use a2a_events_python.Selectors.{matches}
use a2a_events_python.Cursor.{offset_of}
use a2a_events_python.Cursor.RoundTrip.{offset_of-encode}
use a2a_events_python.SubscriptionStore.{get_sub, mark, high_water}
use a2a_events_python.RetryQueue.{RetryItem}
use a2a_events_python.Publisher.{get_topic, now, new_id, transmit, refresh, expire_if_due}
use a2a_events_python.Publisher.Send.{attempt_send, raw_event_dict, send_as}
use a2a_events_python.Publisher.Delivery.{deliver_one}
use a2a_events_python.Publisher.Delivery.Marks.{attempted}
use a2a_events_python.Publisher.Dispatch.{handle_page}
use a2a_events_python.Publisher.Dispatch.NoSkip.{deliver_one_on_record, handle_page_no_skip}
use a2a_events_python.Publisher.Guards.{check_lease}
use a2a_events_python.Publisher.Retries.{retry_record}
use a2a_events_python.Publisher.Retries.Rewind.{retry_record_rewinds}
use a2a_events_python.Publisher.Lifecycle.{get_active_subscription, get_subscription, renew}
use a2a_events_python.Publisher.Lifecycle.Status.{get_active_subscription-leased}
use a2a_events_python.Examples.{
  acked, cfg, env_with, first_event, second_event, orders, orders_topic, refused, sub, sub_id,
  world_at,
}
use a2a_events_python.Examples.Store.{orders-named}

at_zero : offset_of first_event.cursor ≡ ok 0
at_zero = offset_of-encode orders 0 orders-named (omega arith)

pub at_one : offset_of second_event.cursor ≡ ok 1
at_one = offset_of-encode orders 1 orders-named (omega arith)

pub mark_at : (n : ℕ) → mark sub_id orders (world_at n).subs ≡ n
unfolding mark high_water get text_eq
mark_at n = refl

pub all_match :
    matches
      (env_with acked).lower
      sub.selector
      (raw_event_dict second_event)
      orders_topic.filterable_fields
    ≡ ok true
unfolding matches
all_match = refl

deliver_one_on_record_example :
    ((attempted sub_id second_event.event_id
          (deliver_one (env_with refused) cfg sub second_event (world_at 1)).1.subs
        ≡ true)
      ⊎ ((e : Exn) × ((deliver_one (env_with refused) cfg sub second_event (world_at 1)).0
            ≡ raise e)))
    × ((mark sub_id orders (deliver_one (env_with refused) cfg sub second_event (world_at 1)).1.subs
          ≤ mark sub_id orders (world_at 1).subs)
        ⊎ ((mark sub_id orders
                (deliver_one (env_with refused) cfg sub second_event (world_at 1)).1.subs
              ≤ max (mark sub_id orders (world_at 1).subs) (1 + 1))
            × (attempted sub_id second_event.event_id
                  (deliver_one (env_with refused) cfg sub second_event (world_at 1)).1.subs
                ≡ true)))
deliver_one_on_record_example =
    deliver_one_on_record (env_with refused) cfg sub second_event 1 (world_at 1) at_one
      (omega arith)

handle_page_no_skip_example :
    (attempted sub_id second_event.event_id
        (handle_page
          (env_with acked)
          cfg
          sub
          orders_topic
          0
          0
          (first_event ∷ second_event ∷ [])
          (world_at 0)).1.subs
      ≡ true)
    ⊎ (((e : Exn) × ((handle_page
              (env_with acked)
              cfg
              sub
              orders_topic
              0
              0
              (first_event ∷ second_event ∷ [])
              (world_at 0)).0
            ≡ raise e))
        × (mark sub_id orders
              (handle_page
                (env_with acked)
                cfg
                sub
                orders_topic
                0
                0
                (first_event ∷ second_event ∷ [])
                (world_at 0)).1.subs
            ≤ 1))
handle_page_no_skip_example =
    handle_page_no_skip (env_with acked) cfg sub orders_topic second_event 1 0 2 (first_event ∷ [])
      [] 0 0 (world_at 0) (omega arith) at_one all_match
      (0, at_zero, omega arith, (1, at_one, omega arith, omega arith)) (refl, tt) (omega arith)
      (omega (arith, mark_at 0))

abbrev item : RetryItem
item = record {
  retry_id = text "rty_1";
  subscription_id = sub_id;
  topic = orders;
  cursor = first_event.cursor;
  event_id = first_event.event_id;
  attempt = 1;
  next_retry_at = 5;
  last_error = none;
}

sent_refused :
    attempt_send (env_with refused) cfg sub first_event 2 (world_at 5)
    ≡ (ok refused, (attempt_send (env_with refused) cfg sub first_event 2 (world_at 5)).1)
unfolding attempt_send get_topic send_as transmit new_id get text_eq
sent_refused = refl

retry_record_rewinds_example :
    mark sub_id orders
      (retry_record (env_with refused) cfg item sub first_event (world_at 5)).1.subs
    ≡ 0 + 1
retry_record_rewinds_example =
    retry_record_rewinds (env_with refused) cfg sub first_event 0 at_zero item refused (world_at 5)
      (attempt_send (env_with refused) cfg sub first_event 2 (world_at 5)).1 sent_refused refl refl

there : get_sub sub_id (world_at 0).subs ≡ some sub
unfolding get_sub get text_eq
there = refl

got_active :
    get_active_subscription (env_with acked) cfg sub_id (world_at 0)
    ≡ (ok sub, (get_active_subscription (env_with acked) cfg sub_id (world_at 0)).1)
unfolding get_active_subscription get_subscription get_sub get text_eq refresh expire_if_due now
got_active = refl

get_active_subscription-leased_example :
    (active ≡ active) × ((env_with acked).clock 0 < sub.lease_until)
get_active_subscription-leased_example =
    get_active_subscription-leased (env_with acked) cfg sub_id sub (world_at 0)
      (get_active_subscription (env_with acked) cfg sub_id (world_at 0)).1 got_active

abbrev renewed : Subscription
renewed = record sub { lease_until = 60_000_011 }

got_renewed :
    renew (env_with acked) cfg sub_id 60 (world_at 0)
    ≡ (ok renewed, (renew (env_with acked) cfg sub_id 60 (world_at 0)).1)
unfolding renew check_lease get_subscription get_sub get text_eq refresh expire_if_due now
got_renewed = refl

abbrev stray : RetryItem
stray = record item { subscription_id = text "sub_9" }

unknown : get_sub stray.subscription_id (world_at 5).subs ≡ none
unfolding get_sub get text_eq
unknown = refl
