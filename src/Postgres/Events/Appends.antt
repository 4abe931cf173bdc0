-- ===== src/Postgres/Events/Appends.antt =====
-- Appends to the Postgres event store against those of the event store in memory.
use a2a_events_python.Common.{
  ℕ, ◌+◌, ◌<◌, ◌≡◌, refl, ◌∙◌, ap, Bool, false, none, some, [], ◌∷◌, ◌++◌, append-nil, arith,
  filter_by-append, any_by, Option-cases, inl, inr, Text, text_eq, text_eq_iff, get, put,
}
use a2a_events_python.Errors.{ok, raise, protocol, topic_not_found}
use a2a_events_python.Models.{Topic}
use a2a_events_python.Cursor.{encode}
use a2a_events_python.Cursor.Decimal.{max_offset}
use a2a_events_python.EventStore
use a2a_events_python.EventStore.{EventRecord, TopicLog, EventStore, NewEvent, record_of, append_to}
use a2a_events_python.EventStore.Keeps.{IsValid}
use a2a_events_python.Postgres.{Outside}
use a2a_events_python.Postgres.Events.{
  TopicRow, Tables, find_row, rows_of, get_topic, next_offset, set_next_offset, conflicts,
  insert_event, append,
}
use a2a_events_python.Postgres.Events.Offsets.{
  find_row-set_self, find_row-set_other, any_by-or, next_offset-log, cursor-Fresh,
}
use a2a_events_python.Postgres.Events.Represents.{Represents, put-Represents}

abbrev pub has_id : Text → Tables → Bool
has_id event_id db = any_by (λ e. text_eq e.event_id event_id) db.events

abbrev with_event : Text → ℕ → EventRecord → Tables → Tables
with_event topic offset r db = record db {
  topics = set_next_offset topic (offset + 1) db.topics;
  events = db.events ++ r ∷ [];
}

append-missing :
    (out : Outside) (topic : Text) (now : ℕ) (e : NewEvent) (db : Tables)
    → find_row topic db.topics ≡ none
    → append out topic now e db ≡ (raise (protocol topic_not_found), db)
unfolding append get_topic
append-missing out topic now e db missing = rw (append, get_topic, missing)

append-declared :
    (out : Outside) (topic : Text) (now : ℕ) (e : NewEvent) (db : Tables) (row : TopicRow)
    (t : Topic)
    → find_row topic db.topics ≡ some row
    → out.load row.config ≡ ok t
    → append out topic now e db
      ≡ insert_event (record_of topic (next_offset topic db) now e) (next_offset topic db) db
unfolding append get_topic
append-declared out topic now e db row t found loads = rw (append, get_topic, found, loads)

insert_event-fresh :
    (r : EventRecord) (offset : ℕ) (db : Tables)
    → conflicts r db.events ≡ false
    → insert_event r offset db ≡ (ok r, with_event r.topic offset r db)
unfolding insert_event
insert_event-fresh r offset db fresh = rw (insert_event, fresh)

memory-missing :
    (topic : Text) (now : ℕ) (e : NewEvent) (logs : EventStore)
    → get topic logs ≡ none
    → EventStore.append topic now e logs ≡ (raise (protocol topic_not_found), logs)
unfolding EventStore.append
memory-missing topic now e logs missing = rw (EventStore.append, missing)

memory-declared :
    (topic : Text) (now : ℕ) (e : NewEvent) (logs : EventStore) (log : TopicLog)
    → get topic logs ≡ some log
    → EventStore.append topic now e logs
      ≡ (ok (record_of topic log.next_offset now e), put topic (append_to topic now e log).1 logs)
unfolding EventStore.append append_to
memory-declared topic now e logs log found = rw (EventStore.append, found)

module _ (out : Outside) (db : Tables) (logs : EventStore) (represents : Represents out db logs)
    (valid : IsValid logs) (topic : Text) (now : ℕ) (e : NewEvent) (log : TopicLog)
    (at : get topic logs ≡ some log) where
  abbrev r : EventRecord
  r = record_of topic log.next_offset now e

  abbrev db' : Tables
  db' = with_event topic log.next_offset r db

  abbrev log' : TopicLog
  log' = record log { events = log.events ++ r ∷ []; next_offset = log.next_offset + 1 }

  rows_self : rows_of topic db' ≡ rows_of topic db ++ r ∷ []
  unfolding record_of
  rows_self = filter_by-append _ db.events (r ∷ []) ∙ ground (arith, text_eq_iff topic topic)

  rows-other : (t : Text) → text_eq topic t ≡ false → rows_of t db' ≡ rows_of t db
  unfolding record_of
  rows-other t h = filter_by-append _ db.events (r ∷ []) ∙ rw (h, append-nil)

  append-Represents : Represents out db' (put topic log' logs)
  append-Represents =
      let (row, found, loads, next, rows) = represents.declared topic log at in
      put-Represents out db db' logs topic log' represents
        (
          record row { next_offset = log.next_offset + 1 },
          find_row-set_self topic (log.next_offset + 1) db.topics row found,
          loads,
          refl,
          rows_self ∙ ap (λ es. es ++ r ∷ []) rows,
        )
        (λ t other. (find_row-set_other topic t _ db.topics other, rows-other t other))

  no_conflict :
      has_id e.event_id db ≡ false
      → any_by (λ x. text_eq x.cursor (encode topic log.next_offset)) db.events ≡ false
      → conflicts r db.events ≡ false
  unfolding record_of
  no_conflict new fresh =
      any_by-or (λ x. text_eq x.event_id e.event_id)
        (λ x. text_eq x.cursor (encode topic log.next_offset)) db.events
      ∙ rw (new, fresh)

  append-both :
      log.next_offset < max_offset
      → has_id e.event_id db ≡ false
      → ((append out topic now e db).0 ≡ (EventStore.append topic now e logs).0)
        × Represents out (append out topic now e db).1 (EventStore.append topic now e logs).1
  unfolding record_of append_to
  append-both room new =
      let (row, found, loads, next, rows) = represents.declared topic log at in
      let free : conflicts r db.events ≡ false =
        no_conflict new (cursor-Fresh out db logs represents valid topic log at room) in
      rw
        (
          append-declared out topic now e db row log.topic found loads,
          next_offset-log out db logs represents valid topic log at room,
          insert_event-fresh r log.next_offset db free,
          memory-declared topic now e logs log at,
        )
        (refl, append-Represents)

-- On a database that represents the logs of a valid store in memory, an append whose event id is
-- not in the table, and whose topic has an offset left, returns what the store in memory returns:
-- the same record, or `topic_not_found` for a topic that was never declared. Afterwards the
-- database represents the logs in memory again.
pub append_agrees :
    (out : Outside) (db : Tables) (logs : EventStore) (topic : Text) (now : ℕ) (e : NewEvent)
    → Represents out db logs
    → IsValid logs
    → EventStore.count topic logs < max_offset
    → has_id e.event_id db ≡ false
    → ((append out topic now e db).0 ≡ (EventStore.append topic now e logs).0)
      × Represents out (append out topic now e db).1 (EventStore.append topic now e logs).1
unfolding EventStore.count
append_agrees out db logs topic now e represents valid room new =
    elim (Option-cases (get topic logs)) [
      | inl missing ↦
          rw
            (
              append-missing out topic now e db (represents.undeclared topic missing).0,
              memory-missing topic now e logs missing,
            )
            (refl, represents)
      | inr (log, at) ↦
          append-both out db logs represents valid topic now e log at (ground (arith, room, at)) new
    ]
