-- ===== src/Postgres/Events/Deletes.antt =====
-- One round of a compaction: what a DELETE leaves, and what it counts.
use a2a_events_python.Common.{
  ℕ, ◌+◌, ◌-◌, ◌≡◌, refl, ◌∙◌, ap, not, ◌&&◌, Bool, false, some, List, [], ◌∷◌, arith, leb,
  if◌then◌else◌, length, filter_by, Bool-cases, inl, inr, Text, text_eq, text_eq_iff, get, put,
}
use a2a_events_python.Errors.{ok}
use a2a_events_python.Models.{Topic}
use a2a_events_python.EventStore
use a2a_events_python.EventStore.{EventRecord, TopicLog, EventStore, is_live, compact_log}
use a2a_events_python.Postgres.{Outside}
use a2a_events_python.Postgres.Events.{
  TopicRow, Tables, find_row, get_topic, delete_expired, compact_one,
}
use a2a_events_python.Postgres.Events.Represents.{Represents, put-Represents}

module _ (name : Text) (retention now : ℕ) where
  abbrev stays : EventRecord → Bool
  stays e = not (text_eq e.topic name && not (is_live retention now e))

  -- The DELETE keeps the live rows of the topic, and every row of another.
  delete_self :
      (es : List EventRecord)
      → filter_by (λ e. text_eq e.topic name) (filter_by stays es)
        ≡ filter_by (is_live retention now) (filter_by (λ e. text_eq e.topic name) es)
  delete_self [] = refl
  delete_self (e ∷ es) = ground (arith, delete_self es)

  delete-other :
      (t : Text) (es : List EventRecord)
      → text_eq name t ≡ false
      → filter_by (λ e. text_eq e.topic t) (filter_by stays es)
        ≡ filter_by (λ e. text_eq e.topic t) es
  delete-other t [] h = refl
  delete-other t (e ∷ es) h = ground (
    arith,
    delete-other t es h,
    text_eq_iff e.topic name,
    text_eq_iff e.topic t,
    text_eq_iff name t,
  )

  length-delete :
      (es : List EventRecord)
      → length (filter_by stays es) + length (filter_by (λ e. text_eq e.topic name) es)
        ≡ length es
          + length (filter_by (is_live retention now) (filter_by (λ e. text_eq e.topic name) es))
  length-delete [] = refl
  length-delete (e ∷ es) = ground (arith, length-delete es)

pub memory-compact_one :
    (now : ℕ) (name : Text) (removed : ℕ) (logs : EventStore) (log : TopicLog)
    → get name logs ≡ some log
    → EventStore.compact_one now name (removed, logs)
      ≡ (removed + (compact_log now log).0, put name (compact_log now log).1 logs)
unfolding EventStore.compact_one
memory-compact_one now name removed logs log found = rw (EventStore.compact_one, found)

postgres-compact_one :
    (out : Outside) (now : ℕ) (name : Text) (removed : ℕ) (db : Tables) (row : TopicRow) (t : Topic)
    → find_row name db.topics ≡ some row
    → out.load row.config ≡ ok t
    → compact_one out now name removed db ≡ (
        if leb t.retention_seconds 0 then (ok removed, db) else (
          ok (
              removed
              + (length db.events
                  - length (delete_expired name t.retention_seconds now db).events)),
          delete_expired name t.retention_seconds now db,
        ))
unfolding compact_one get_topic
postgres-compact_one out now name removed db row t found loads =
    rw (compact_one, get_topic, found, loads)

module _ (out : Outside) (now : ℕ) (name : Text) (removed : ℕ) (db : Tables) (logs : EventStore)
    (represents : Represents out db logs) (log : TopicLog) (at : get name logs ≡ some log) where
  -- One round of the loop removes as many events as in memory.
  pub compact_one-agrees :
      (db' : Tables) × (compact_one out now name removed db
        ≡ (ok (removed + (compact_log now log).0), db'))
      × Represents out db' (put name (compact_log now log).1 logs)
  unfolding compact_log
  compact_one-agrees =
      let (row, found, loads, next, rows) = represents.declared name log at in
      elim (Bool-cases (leb log.topic.retention_seconds 0)) [
        | inl forever ↦ (
          db,
          postgres-compact_one out now name removed db row log.topic found loads
              ∙ rw (compact_log, forever) (ap (λ n. (ok n, db)) (omega arith)),
          rw (compact_log, forever)
              (put-Represents out db db logs name log represents (row, found, loads, next, rows)
                (λ t other. (refl, refl))),
        )
        | inr bounded ↦
            let ret : ℕ = log.topic.retention_seconds in
            let db' : Tables = delete_expired name ret now db in
            (
              db',
              postgres-compact_one out now name removed db row log.topic found loads
                  ∙ rw (compact_log, bounded)
                      (ap (λ n. (ok (removed + n), db'))
                        (omega (
                          arith,
                          length-delete name ret now db.events,
                          ap length rows,
                          ap (λ es. length (filter_by (is_live ret now) es)) rows,
                        ))),
              rw (compact_log, bounded)
                  (put-Represents out db db' logs name _ represents
                    (
                      row,
                      found,
                      loads,
                      next,
                      delete_self name ret now db.events ∙ ap (filter_by (is_live ret now)) rows,
                    )
                    (λ t other. (refl, delete-other name ret now t db.events other))),
            )
      ]
