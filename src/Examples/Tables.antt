-- ===== src/Examples/Tables.antt =====
-- The Postgres event store.
use mathlib.Core.Path.{subst}
use a2a_events_python.Common.{
  ◌<◌, ◌≤◌, ◌^◌, ◌⊎◌, ◌≡◌, refl, arith, some, [], ◌∷◌, false, filter_by, Bool-cases, inl, inr, Text,
  text, text_eq, text_eq_iff, text_eq_refl, get,
}
use a2a_events_python.Errors.{ok, raise, foreign}
use a2a_events_python.Models.{Topic}
use a2a_events_python.Postgres.{out_of_range}
use a2a_events_python.Cursor.Decimal.{max_offset}
use a2a_events_python.EventStore
use a2a_events_python.EventStore.{EventRecord, TopicLog, EventStore}
use a2a_events_python.Postgres.Events
use a2a_events_python.Postgres.Events.Represents.{Represents, IsStored}
use a2a_events_python.Postgres.Events.Reads.{after_offset, cursor_of, read_agrees}
use a2a_events_python.Postgres.Events.Ordering.{cursor_at}
use a2a_events_python.Postgres.Events.Appends.{append_agrees, has_id}
use a2a_events_python.Postgres.Events.Compactions.{compact_each, compact_agrees}
use a2a_events_python.Postgres.Events.Declarations.{declare_topic_agrees}
use a2a_events_python.Examples.{orders, orders_topic, orders_log, logs, new_event}
use a2a_events_python.Examples.Store.{logs-IsValid}
use a2a_events_python.Examples.Database.{out, out-IsSound, aging_log, row_of, tables_of}

found_aging : get orders ((orders, aging_log) ∷ []) ≡ some aging_log
unfolding get text_eq
found_aging = refl

few_orders : EventStore.count orders logs < max_offset
unfolding EventStore.count get text_eq
few_orders = omega arith

new_id : has_id (text "evt_3") (tables_of orders_log) ≡ false
unfolding text_eq
new_id = refl

rows-orders : filter_by (λ e. text_eq e.topic orders) orders_log.events ≡ orders_log.events
rows-orders = rw (text_eq_refl orders)

rows-other :
    (t : Text)
    → text_eq orders t ≡ false
    → filter_by (λ e. text_eq e.topic t) orders_log.events ≡ []
rows-other t h = rw h

tables-Represents :
    (log : TopicLog)
    → log.events ≡ orders_log.events
    → Represents out (tables_of log) ((orders, log) ∷ [])
unfolding get
tables-Represents log events = record {
  declared = λ t l found. elim (Bool-cases (text_eq orders t)) [
    | inl same ↦
        let hit : some log ≡ some l = rw same at found in
        let e : orders ≡ t = (text_eq_iff orders t).0 same in
        let f : log ≡ l = cc in
        subst (λ x. IsStored out x (tables_of log) l) e
          (subst (IsStored out orders (tables_of log)) f (
            row_of log,
            rw (text_eq_refl orders),
            out-IsSound.loads log.topic,
            refl,
            rw (events, text_eq_refl orders),
          ))
    | inr other ↦ absurd (let missed = rw other at found in cc)
  ];
  undeclared = λ t missing. elim (Bool-cases (text_eq orders t)) [
    | inl same ↦ absurd (let hit = rw same at missing in cc)
    | inr other ↦ (rw other, rw events (rows-other t other))
  ];
}

read_agrees_example :
    Events.read out orders
      (cursor_of orders (after_offset 0))
      (cursor_at orders (some 1))
      2
      9
      9
      (tables_of orders_log)
    ≡ EventStore.read orders
        (cursor_of orders (after_offset 0))
        (cursor_at orders (some 1))
        2
        9
        9
        logs
read_agrees_example =
    read_agrees out (tables_of orders_log) logs orders (after_offset 0) (some 1) 1 9 9 out-IsSound
      (tables-Represents orders_log refl) logs-IsValid (omega arith) (omega arith)

append_agrees_example :
    ((Events.append out orders 9 (new_event (text "evt_3")) (tables_of orders_log)).0
      ≡ (EventStore.append orders 9 (new_event (text "evt_3")) logs).0)
    × Represents out
        (Events.append out orders 9 (new_event (text "evt_3")) (tables_of orders_log)).1
        (EventStore.append orders 9 (new_event (text "evt_3")) logs).1
append_agrees_example =
    append_agrees out (tables_of orders_log) logs orders 9 (new_event (text "evt_3"))
      (tables-Represents orders_log refl) logs-IsValid few_orders (new_id)

compact_agrees_example :
    ((Events.compact out (λ rs. rs) (some orders) (λ _. 2_000_000) (tables_of aging_log)).0
      ≡ ok (compact_each (λ _. 2_000_000) (orders ∷ []) (0, (orders, aging_log) ∷ [])).0)
    × Represents out
        (Events.compact out (λ rs. rs) (some orders) (λ _. 2_000_000) (tables_of aging_log)).1
        (compact_each (λ _. 2_000_000) (orders ∷ []) (0, (orders, aging_log) ∷ [])).1
    × (compact_each (λ _. 5) (orders ∷ []) (0, (orders, aging_log) ∷ [])
        ≡ EventStore.compact (some orders) 5 ((orders, aging_log) ∷ []))
compact_agrees_example =
    compact_agrees out (λ rs. rs) (some orders) (λ _. 2_000_000) 5 (tables_of aging_log)
      ((orders, aging_log) ∷ []) (tables-Represents aging_log refl) (aging_log, found_aging)

abbrev returns_topic : Topic
returns_topic = record orders_topic { name = text "returns" }

declare_topic_agrees_example :
    ((returns_topic.retention_seconds < 2 ^ 31)
      × ((Events.declare_topic out returns_topic 9 (tables_of orders_log)).0 ≡ ok tt)
      × Represents out
          (Events.declare_topic out returns_topic 9 (tables_of orders_log)).1
          (EventStore.declare_topic returns_topic logs))
    ⊎ ((2 ^ 31 ≤ returns_topic.retention_seconds)
        × (Events.declare_topic out returns_topic 9 (tables_of orders_log)
            ≡ (raise (foreign out_of_range), tables_of orders_log)))
declare_topic_agrees_example =
    declare_topic_agrees out returns_topic 9 (tables_of orders_log) logs out-IsSound
      (tables-Represents orders_log refl)
