-- ===== src/Postgres/Subscriptions/Represents.antt =====
-- When the tables of the Postgres subscription store hold what the store in memory holds, and the
-- writes that the publisher makes.
use a2a_events_python.Common.{
  ℕ, ◌-◌, ◌<◌, ◌^◌, true, ◌≤◌, ◌≡◌, false, none, some, [], map, any_by, All, Text, text_eq, get,
  get_or, Dict,
}
use a2a_events_python.Errors.{ok}
use a2a_events_python.Exec.{Exec}
use a2a_events_python.Models.{Subscription}
use a2a_events_python.SubscriptionStore
use a2a_events_python.SubscriptionStore.{SubscriptionStore, DeliveryAttempt, put_ack}
use a2a_events_python.Postgres.Subscriptions
use a2a_events_python.Postgres.Subscriptions.{
  Outside, IsSound, SubscriptionRow, AttemptRow, Tables, find_row, has_row, update_rows,
  selector_of, selector_json, row_to_sub, new_row, refreshed, marked, fits_attempt,
}
use a2a_events_python.Postgres.Subscriptions.Rows.{Rising}

-- The row of a subscription, with its marks.
abbrev pub IsStored : Outside → Text → Tables → SubscriptionStore → Subscription → Type 0
IsStored out id db s sub =
    (row : SubscriptionRow) × (find_row id db.subscriptions ≡ some row)
    × (row_to_sub out row ≡ ok sub)
    × (row.high_water ≡ get_or [] id s.hw)

pub record Represents (out : Outside) (db : Tables) (s : SubscriptionStore) : Type 0 where
  pub stored :
      (id : Text) (sub : Subscription) → get id s.subs ≡ some sub → IsStored out id db s sub
  pub absent :
      (id : Text)
      → get id s.subs ≡ none
      → (find_row id db.subscriptions ≡ none) × (get_or [] id s.hw ≡ [])
  pub attempts : map (λ r. r.attempt) db.attempts ≡ s.attempts
  pub rising : Rising 0 db.attempts
  pub acks : db.acks ≡ s.acks

pub data Write : Type 0 where
  adding : Subscription → Dict ℕ → Write
  updating : Subscription → Write
  marking : Text → Text → ℕ → Write
  acking : Text → Text → Text → Write
  attempting : DeliveryAttempt → ℕ → Write

abbrev pub on_tables : Outside → Write → Exec Tables (Unit {0})
on_tables out (adding sub high_water) db = Subscriptions.add out sub high_water db
on_tables out (updating sub) db = (ok tt, Subscriptions.update sub db)
on_tables out (marking id topic next) db = Subscriptions.set_high_water id topic next db
on_tables out (acking id event_id cursor) db = Subscriptions.record_ack id event_id cursor db
on_tables out (attempting a now) db = Subscriptions.record_attempt a now db

abbrev pub in_memory : Write → SubscriptionStore → SubscriptionStore
in_memory (adding sub high_water) s = SubscriptionStore.add sub high_water s
in_memory (updating sub) s = SubscriptionStore.update sub s
in_memory (marking id topic next) s = SubscriptionStore.set_high_water id topic next s
in_memory (acking id event_id cursor) s = SubscriptionStore.record_ack id event_id cursor s
in_memory (attempting a now) s = SubscriptionStore.record_attempt a s

abbrev pub Known : Text → SubscriptionStore → Type 0
Known id s = (sub : Subscription) × (get id s.subs ≡ some sub)

-- What the publisher keeps to: ids are new, an update changes the status, the lease and the cursors
-- only, and the other writes are about a subscription that is there. Time does not run backwards.
-- An offset and the numbers of an attempt are below 2 ^ 31.
abbrev pub IsAllowed : Write → Tables → SubscriptionStore → Type 0
IsAllowed (adding sub high_water) db s = get sub.subscription_id s.subs ≡ none
IsAllowed (updating sub) db s =
    (old : Subscription) × (get sub.subscription_id s.subs ≡ some old)
    × (record old { status = sub.status; lease_until = sub.lease_until; cursors = sub.cursors }
        ≡ sub)
IsAllowed (marking id topic next) db s = Known id s × (next - 1 < 2 ^ 31)
IsAllowed (acking id event_id cursor) db s = Known id s
IsAllowed (attempting a now) db s =
    (fits_attempt a ≡ true)
    × Known a.subscription_id s
    × (any_by (λ b. text_eq b.delivery_attempt_id a.delivery_attempt_id) s.attempts ≡ false)
    × All (λ r. r.created_at ≤ now) db.attempts
