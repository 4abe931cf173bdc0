-- ===== src/Postgres/Events/Represents.antt =====
-- When the tables of the Postgres event store hold what the logs of the store in memory hold: each
-- declared topic has its row, and the rows of its events are its log.
use mathlib.Core.Path.{subst}
use a2a_events_python.Common.{
  ◌≡◌, ◌∙◌, arith, false, none, some, [], Bool-cases, inl, inr, Text, text_eq, text_eq_iff, get,
  put, get-put,
}
use a2a_events_python.Errors.{ok}
use a2a_events_python.EventStore.{TopicLog, EventStore}
use a2a_events_python.Postgres.{Outside}
use a2a_events_python.Postgres.Events.{TopicRow, Tables, find_row, rows_of}

abbrev pub IsStored : Outside → Text → Tables → TopicLog → Type 0
IsStored out topic db log =
    (row : TopicRow) × (find_row topic db.topics ≡ some row)
    × (out.load row.config ≡ ok log.topic)
    × (row.next_offset ≡ log.next_offset)
    × (rows_of topic db ≡ log.events)

pub record Represents (out : Outside) (db : Tables) (logs : EventStore) : Type 0 where
  pub declared :
      (topic : Text) (log : TopicLog) → get topic logs ≡ some log → IsStored out topic db log
  pub undeclared :
      (topic : Text)
      → get topic logs ≡ none
      → (find_row topic db.topics ≡ none) × (rows_of topic db ≡ [])

-- A write of the log of one topic, and of its rows only.
pub put-Represents :
    (out : Outside) (db db' : Tables) (logs : EventStore) (topic : Text) (log : TopicLog)
    → Represents out db logs
    → IsStored out topic db' log
    → ((t : Text)
        → text_eq topic t ≡ false
        → (find_row t db'.topics ≡ find_row t db.topics) × (rows_of t db' ≡ rows_of t db))
    → Represents out db' (put topic log logs)
put-Represents out db db' logs topic log represents new others = record {
  declared = λ t l found. elim (Bool-cases (text_eq topic t)) [
    | inl same ↦
        let e : topic ≡ t = (text_eq_iff topic t).0 same in
        let f : log ≡ l = ground (arith, get-put topic t log logs) in
        subst (λ x. IsStored out x db' l) e (subst (IsStored out topic db') f new)
    | inr other ↦
        let (row, f, loads, next, rows) =
          represents.declared t l (ground (arith, get-put topic t log logs)) in
        let (found', rows') = others t other in (row, found' ∙ f, loads, next, rows' ∙ rows)
  ];
  undeclared = λ t missing. elim (Bool-cases (text_eq topic t)) [
    | inl same ↦ absurd (ground (arith, get-put topic t log logs))
    | inr other ↦
        let (f, rows) = represents.undeclared t (ground (arith, get-put topic t log logs)) in
        let (found', rows') = others t other in (found' ∙ f, rows' ∙ rows)
  ];
}
