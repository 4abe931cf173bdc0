-- ===== src/Postgres/Subscriptions.antt =====
-- runtime/postgres/subscription_store.py. A high-water mark is kept as the next offset, as in memory,
-- and a column of an enumeration as the enumeration. `updated_at` and `acked_at`, which nothing
-- reads, are left out.
pub mod Rows
pub mod Represents
pub mod Writes
pub mod Reads
use a2a_events_python.Common.{
  ℕ, ◌-◌, not, ◌≡◌, Bool, true, ◌&&◌, ◌||◌, Option, none, some, List, [], ◌∷◌, ◌++◌, map, ◌==◌, ltb,
  if◌then◌else◌, filter_by, any_by, Text, text_eq, Dict, put,
}
use a2a_events_python.Json.{Json, obj, Fields, end, truthy}
use a2a_events_python.Errors.{Result, ok, raise, foreign, ◌>>=◌}
use a2a_events_python.Exec.{Exec}
use a2a_events_python.Models.{Subscription, SubscriptionStatus, Selector, ResolvedDelivery}
use a2a_events_python.SubscriptionStore.{
  DeliveryAttempt, DeadLetter, Ack, put_ack, is_dead_letter, dead_letter_of,
}
use a2a_events_python.Postgres.{order_by, in_integer, out_of_range}
use a2a_events_python.Postgres.Events.{unique_violation}

-- pydantic's dumps and loads, and `<` of two texts in the collation of the database
pub record Outside : Type 0 where
  pub dump_selector : Selector → Json
  pub load_selector : Json → Result Selector
  pub dump_delivery : ResolvedDelivery → Json
  pub load_delivery : Json → Result ResolvedDelivery
  pub before : Text → Text → Bool

pub record IsSound (out : Outside) : Type 0 where
  pub selectors : (s : Selector) → out.load_selector (out.dump_selector s) ≡ ok s
  pub not_empty : (s : Selector) → truthy (out.dump_selector s) ≡ true
  pub deliveries : (d : ResolvedDelivery) → out.load_delivery (out.dump_delivery d) ≡ ok d

pub record SubscriptionRow : Type 0 where
  pub subscription_id : Text
  pub publisher_card_url : Text
  pub subscriber_card_url : Text
  pub topics : List Text
  pub selector : Json
  pub delivery : Json
  pub status : SubscriptionStatus
  pub lease_until : ℕ
  pub cursors : Dict Text
  pub high_water : Dict ℕ
  pub metadata : Fields
  pub created_at : ℕ

pub record AttemptRow : Type 0 where
  pub attempt : DeliveryAttempt
  pub created_at : ℕ

pub record Tables : Type 0 where
  pub subscriptions : List SubscriptionRow
  pub attempts : List AttemptRow
  pub acks : List Ack

abbrev pub find_row : Text → List SubscriptionRow → Option SubscriptionRow
find_row id [] = none
find_row id (r ∷ rs) =
    let rest = find_row id rs in if text_eq r.subscription_id id then some r else rest

abbrev pub has_row : Text → Tables → Bool
has_row id db = any_by (λ r. text_eq r.subscription_id id) db.subscriptions

-- UPDATE a2a_subscriptions SET ... WHERE subscription_id = %s
abbrev pub update_rows :
    Text → (SubscriptionRow → SubscriptionRow) → List SubscriptionRow → List SubscriptionRow
update_rows id f [] = []
update_rows id f (r ∷ rs) = (if text_eq r.subscription_id id then f r else r) ∷ update_rows id f rs

-- psycopg's ForeignKeyViolation
abbrev pub foreign_key_violation : ℕ
foreign_key_violation = 2

module _ (out : Outside) where
  unfoldable pub selector_json : Option Selector → Json
  selector_json none = obj end
  selector_json (some s) = out.dump_selector s

  -- row[4] or None, validated
  abbrev pub selector_of : Json → Result (Option Selector)
  selector_of column =
      if truthy column then (do s ← out.load_selector column; ok (some s)) else ok none

  unfoldable pub row_to_sub : SubscriptionRow → Result Subscription
  row_to_sub row = do
    selector ← selector_of row.selector
    delivery ← out.load_delivery row.delivery
    ok (record {
      subscription_id = row.subscription_id;
      status = row.status;
      publisher_card_url = row.publisher_card_url;
      subscriber_card_url = row.subscriber_card_url;
      topics = row.topics;
      selector = selector;
      delivery = delivery;
      created_at = row.created_at;
      lease_until = row.lease_until;
      cursors = row.cursors;
      metadata = row.metadata;
    })

  unfoldable pub new_row : Subscription → Dict ℕ → SubscriptionRow
  new_row sub high_water = record {
    subscription_id = sub.subscription_id;
    publisher_card_url = sub.publisher_card_url;
    subscriber_card_url = sub.subscriber_card_url;
    topics = sub.topics;
    selector = selector_json sub.selector;
    delivery = out.dump_delivery sub.delivery;
    status = sub.status;
    lease_until = sub.lease_until;
    cursors = sub.cursors;
    high_water = high_water;
    metadata = sub.metadata;
    created_at = sub.created_at;
  }

  unfoldable pub add : Subscription → Dict ℕ → Exec Tables (Unit {0})
  unfolding new_row
  add sub high_water db =
      if has_row sub.subscription_id db
      then (raise (foreign unique_violation), db)
      else (ok tt, record db { subscriptions = db.subscriptions ++ new_row sub high_water ∷ [] })

  unfoldable pub get : Text → Tables → Result (Option Subscription)
  unfolding row_to_sub
  get id db = elim (find_row id db.subscriptions) [
    | none ↦ ok none
    | some row ↦ (do sub ← row_to_sub row; ok (some sub))
  ]

  abbrev load_rows : List SubscriptionRow → Result (List Subscription)
  unfolding row_to_sub
  load_rows [] = ok []
  load_rows (r ∷ rs) = do sub ← row_to_sub r; subs ← load_rows rs; ok (sub ∷ subs)

  -- ORDER BY created_at, subscription_id
  abbrev older : SubscriptionRow → SubscriptionRow → Bool
  older r r' =
      ltb r.created_at r'.created_at
      || (r.created_at == r'.created_at && out.before r.subscription_id r'.subscription_id)

  unfoldable pub list_all : Tables → Result (List Subscription)
  unfolding load_rows
  list_all db = load_rows (order_by older db.subscriptions)

abbrev pub refreshed : Subscription → SubscriptionRow → SubscriptionRow
refreshed sub r = record r {
  status = sub.status;
  lease_until = sub.lease_until;
  cursors = sub.cursors;
}

unfoldable pub update : Subscription → Tables → Tables
update sub db = record db {
  subscriptions = update_rows sub.subscription_id (refreshed sub) db.subscriptions;
}

unfoldable pub high_water : Text → Tables → Dict ℕ
high_water id db = elim (find_row id db.subscriptions) [ none ↦ [] | some row ↦ row.high_water ]

-- jsonb_set(high_water, [topic], offset): the entry is made where there is none
abbrev pub marked : Text → ℕ → SubscriptionRow → SubscriptionRow
marked topic next r = record r { high_water = put topic next r.high_water }

-- to_jsonb(offset::int): the offset is `next - 1`, and -1 is in range
unfoldable pub set_high_water : Text → Text → ℕ → Exec Tables (Unit {0})
set_high_water id topic next db =
    if in_integer (next - 1)
    then (ok tt, record db { subscriptions = update_rows id (marked topic next) db.subscriptions })
    else (raise (foreign out_of_range), db)

-- The foreign key refuses an ack or an attempt of a subscription that is not there.
unfoldable pub record_ack : Text → Text → Text → Exec Tables (Unit {0})
record_ack id event_id cursor db =
    if has_row id db
    then (ok tt, record db { acks = put_ack id event_id cursor db.acks })
    else (raise (foreign foreign_key_violation), db)

abbrev fits_column : Option ℕ → Bool
fits_column none = true
fits_column (some n) = in_integer n

-- the INTEGER columns hold the attempt's number and its status code
abbrev pub fits_attempt : DeliveryAttempt → Bool
fits_attempt a = in_integer a.attempt && fits_column a.last_status_code

unfoldable pub record_attempt : DeliveryAttempt → ℕ → Exec Tables (Unit {0})
record_attempt a now db =
    if not (fits_attempt a)
    then (raise (foreign out_of_range), db)
    else if any_by (λ r. text_eq r.attempt.delivery_attempt_id a.delivery_attempt_id) db.attempts
    then (raise (foreign unique_violation), db)
    else if has_row a.subscription_id db
    then (
      ok tt,
      record db { attempts = db.attempts ++ record { attempt = a; created_at = now } ∷ [] },
    )
    else (raise (foreign foreign_key_violation), db)

abbrev pub earlier : AttemptRow → AttemptRow → Bool
earlier r r' = ltb r.created_at r'.created_at

-- The rows come as `scan` gives them, those of one time in any order.
unfoldable pub delivery_attempts :
    (List AttemptRow → List AttemptRow) → Text → Tables → List DeliveryAttempt
delivery_attempts scan id db =
    map (λ r. r.attempt)
      (order_by earlier (scan (filter_by (λ r. text_eq r.attempt.subscription_id id) db.attempts)))

unfoldable pub dead_letters : (List AttemptRow → List AttemptRow) → Tables → List DeadLetter
dead_letters scan db =
    map (λ r. dead_letter_of r.attempt)
      (order_by earlier (scan (filter_by (λ r. is_dead_letter r.attempt.status) db.attempts)))
