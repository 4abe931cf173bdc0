-- ===== src/Postgres/Events/Cursors.antt =====
-- The first and the last cursor of a topic, and its count, in Postgres and in memory.
use a2a_events_python.Common.{
  ℕ, ◌-◌, ◌≤◌, ◌≡◌, ◌≢◌, refl, sym, ◌∙◌, ap, Option, none, some, List, [], ◌∷◌, last?, Option-cases,
  inl, inr, Text, get,
}
use a2a_events_python.Errors.{ok}
use a2a_events_python.Cursor.{encode}
use a2a_events_python.Cursor.Decimal.{max_offset}
use a2a_events_python.EventStore
use a2a_events_python.EventStore.{EventRecord, TopicLog, EventStore, live_events, first_cursor}
use a2a_events_python.EventStore.Log.{IsValidLog, Ordered}
use a2a_events_python.EventStore.Keeps.{IsValid}
use a2a_events_python.Postgres.{Outside, IsSound}
use a2a_events_python.Postgres.Events.{
  Tables, rows_of, count, oldest_available_cursor, latest_cursor,
}
use a2a_events_python.Postgres.Events.Ordering.{max_text-last}
use a2a_events_python.Postgres.Events.Represents.{Represents}
use a2a_events_python.Postgres.Events.Reads.{oldest-first}

-- On a database that represents the logs in memory, every topic has the same count as in memory.
pub count_agrees :
    (out : Outside) (db : Tables) (logs : EventStore) (topic : Text)
    → Represents out db logs
    → count topic db ≡ EventStore.count topic logs
unfolding count EventStore.count
count_agrees out db logs topic represents = elim (Option-cases (get topic logs)) [
  | inl missing ↦
      rw (count, EventStore.count, missing, (represents.undeclared topic missing).0) refl
  | inr (log, at) ↦
      let (row, found, loads, next, rows) = represents.declared topic log at in
      rw (count, EventStore.count, at, found) next
]

memory-count :
    (topic : Text) (logs : EventStore) (log : TopicLog)
    → get topic logs ≡ some log
    → EventStore.count topic logs ≡ log.next_offset
unfolding EventStore.count
memory-count topic logs log found = rw (EventStore.count, found)

memory-oldest :
    (topic : Text) (now : ℕ) (logs : EventStore) (log : TopicLog)
    → get topic logs ≡ some log
    → EventStore.oldest_available_cursor topic now logs ≡ ok (first_cursor (live_events now log))
unfolding EventStore.oldest_available_cursor
memory-oldest topic now logs log found = rw (EventStore.oldest_available_cursor, found)

abbrev cursor_or : Text → Option EventRecord → Text
cursor_or default none = default
cursor_or default (some e) = e.cursor

abbrev last_or : Text → List EventRecord → Text
last_or default es = cursor_or default (last? es)

memory-latest :
    (topic : Text) (logs : EventStore) (log : TopicLog)
    → get topic logs ≡ some log
    → EventStore.latest_cursor topic logs
      ≡ ok (last_or (encode topic (log.next_offset - 1)) log.events)
unfolding EventStore.latest_cursor
memory-latest topic logs log found = elim (Option-cases (last? log.events)) [
  | inl empty ↦ rw (EventStore.latest_cursor, found, empty)
  | inr (e, last) ↦ rw (EventStore.latest_cursor, found, last)
]

latest-last :
    (out : Outside) (topic : Text) (db : Tables) (hi : ℕ) (es : List EventRecord)
    → IsSound out
    → topic ≢ []
    → hi ≤ max_offset
    → Ordered topic 0 hi es
    → rows_of topic db ≡ es
    → count topic db ≡ hi
    → latest_cursor out topic db ≡ last_or (encode topic (hi - 1)) es
unfolding latest_cursor
latest-last out topic db hi [] sound named b h rows total = rw (latest_cursor, rows, total)
latest-last out topic db hi (r ∷ rs) sound named b h rows total =
    let (m, o, last, at, low, below, greatest) =
      max_text-last out sound topic named 0 hi r rs b h in
    rw (latest_cursor, rows, greatest) (ap (cursor_or (encode topic (hi - 1))) (sym last))

-- On a database that represents the logs of a valid store in memory, the oldest available and the
-- latest cursor of a declared topic are those in memory.
pub cursors_agree :
    (out : Outside) (db : Tables) (logs : EventStore) (topic : Text) (log : TopicLog) (now : ℕ)
    → IsSound out
    → Represents out db logs
    → IsValid logs
    → get topic logs ≡ some log
    → (oldest_available_cursor out topic now db ≡ EventStore.oldest_available_cursor topic now logs)
      × (ok (latest_cursor out topic db) ≡ EventStore.latest_cursor topic logs)
cursors_agree out db logs topic log now sound represents valid at =
    let (row, found, loads, next, rows) = represents.declared topic log at in
    let v : IsValidLog topic log = valid.at topic log at in
    (
      oldest-first out sound topic log v db row found loads rows now
          ∙ sym (memory-oldest topic now logs log at),
      ap ok (
            latest-last out topic db log.next_offset log.events sound v.named v.bounded v.ordered
              rows (count_agrees out db logs topic represents ∙ memory-count topic logs log at))
          ∙ sym (memory-latest topic logs log at),
    )
