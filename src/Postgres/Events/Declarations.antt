-- ===== src/Postgres/Events/Declarations.antt =====
-- Declarations of the Postgres event store against those of the store in memory.
use a2a_events_python.Common.{
  ℕ, ◌<◌, ◌≤◌, ◌^◌, ◌⊎◌, ◌≡◌, refl, false, arith, none, some, List, [], ◌∷◌, ◌++◌, Bool-cases,
  Option-cases, inl, inr, Text, text_eq, text_eq_iff, get,
}
use a2a_events_python.Errors.{ok, raise, foreign}
use a2a_events_python.Models.{Topic}
use a2a_events_python.EventStore
use a2a_events_python.EventStore.{EventStore}
use a2a_events_python.Postgres.{Outside, IsSound, in_integer, out_of_range}
use a2a_events_python.Postgres.Events.{
  TopicRow, Tables, find_row, declared_row, insert_topic, declare_topic,
}
use a2a_events_python.Postgres.Events.Represents.{Represents, put-Represents}

find_row-append_other :
    (t : Text) (rs : List TopicRow) (row : TopicRow)
    → text_eq row.topic t ≡ false
    → find_row t (rs ++ row ∷ []) ≡ find_row t rs
find_row-append_other t [] row h = rw h
find_row-append_other t (r ∷ rs) row h = rw (find_row-append_other t rs row h)

find_row-append_self :
    (rs : List TopicRow) (row : TopicRow)
    → find_row row.topic rs ≡ none
    → find_row row.topic (rs ++ row ∷ []) ≡ some row
find_row-append_self [] row h = ground (arith, text_eq_iff row.topic row.topic)
find_row-append_self (r ∷ rs) row h = elim (Bool-cases (text_eq r.topic row.topic)) [
  | inl same ↦ absurd (ground (arith, same, h))
  | inr other ↦ rw other (find_row-append_self rs row (ground (arith, other, h)))
]

insert_topic-Represents :
    (out : Outside) (topic : Topic) (now : ℕ) (db : Tables) (logs : EventStore)
    → IsSound out
    → Represents out db logs
    → Represents out (insert_topic out topic now db) (EventStore.declare_topic topic logs)
unfolding insert_topic EventStore.declare_topic
insert_topic-Represents out topic now db logs sound represents =
    elim (Option-cases (get topic.name logs)) [
      | inr (log, at) ↦
          let (row, found, loads, next, rows) = represents.declared topic.name log at in
          rw (insert_topic, EventStore.declare_topic, at, found) represents
      | inl missing ↦
          let (absent, empty) = represents.undeclared topic.name missing in
          rw (insert_topic, EventStore.declare_topic, missing, absent)
            (put-Represents out db _ logs topic.name (EventStore.new_log topic) represents
              (
                declared_row out topic now,
                find_row-append_self db.topics (declared_row out topic now) absent,
                sound.loads topic,
                refl,
                empty,
              )
              (λ t other. (find_row-append_other t db.topics _ other, refl)))
    ]

-- Declaring a topic whose retention is below 2 ^ 31 seconds, on a database that represents the logs
-- in memory, succeeds and leaves it representing the logs with the topic declared, at whatever time
-- the row is written: a topic that is there stays. A topic of a longer retention is refused, and the
-- database stays as it was, whether the topic is there or not.
pub declare_topic_agrees :
    (out : Outside) (topic : Topic) (now : ℕ) (db : Tables) (logs : EventStore)
    → IsSound out
    → Represents out db logs
    → ((topic.retention_seconds < 2 ^ 31)
        × ((declare_topic out topic now db).0 ≡ ok tt)
        × Represents out (declare_topic out topic now db).1 (EventStore.declare_topic topic logs))
      ⊎ ((2 ^ 31 ≤ topic.retention_seconds)
          × (declare_topic out topic now db ≡ (raise (foreign out_of_range), db)))
unfolding declare_topic EventStore.declare_topic
declare_topic_agrees out topic now db logs sound represents =
    elim (Bool-cases (in_integer topic.retention_seconds)) [
      | inr long ↦ inr (ground arith, rw (declare_topic, long) refl)
      | inl fits ↦ inl (
        ground arith,
        rw (declare_topic, fits) refl,
        rw (declare_topic, fits) (insert_topic-Represents out topic now db logs sound represents),
      )
    ]
