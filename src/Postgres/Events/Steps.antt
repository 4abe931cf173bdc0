-- ===== src/Postgres/Events/Steps.antt =====
-- The steps of a read, in Postgres and in memory, one by one.
use a2a_events_python.Common.{
  ℕ, ◌+◌, ◌<◌, ◌≡◌, ◌≢◌, refl, ◌∙◌, true, false, Option, none, some, [], ◌∷◌, arith, leb,
  if◌then◌else◌, filter_by, Option-cases, inl, inr, Text, filter_by, text_eq, text_eq_iff, get,
}
use a2a_events_python.Errors.{ok, raise, protocol, topic_not_found, ◌>>=◌, ◌>>◌}
use a2a_events_python.Cursor.{earliest, latest, encode, offset_for}
use a2a_events_python.Cursor.Decimal.{max_offset}
use a2a_events_python.Cursor.RoundTrip.{offset_for-encode}
use a2a_events_python.EventStore
use a2a_events_python.EventStore.{
  EventRecord, TopicLog, EventStore, live_events, is_live, first_cursor, to_offset,
}
use a2a_events_python.Postgres.{Outside}
use a2a_events_python.Postgres.Events.{
  Tables, find_row, get_topic, is_retained, oldest_available_cursor, select_rows, read_rows, read,
  page_rows, check_cursor, check_oldest,
}
use a2a_events_python.Postgres.Events.Ordering.{filter_by-or, cursor_at, Fits}

pub retained-live :
    (now : ℕ) (log : TopicLog)
    → filter_by (is_retained log.topic.retention_seconds now) log.events ≡ live_events now log
unfolding live_events is_live
retained-live now log =
    filter_by-or (leb log.topic.retention_seconds 0) (is_live log.topic.retention_seconds now)
      log.events

pub decodes :
    (topic : Text) (p : ℕ) → topic ≢ [] → p < max_offset → offset_for topic (encode topic p) ≡ ok p
decodes topic p named h =
    offset_for-encode topic topic p named h ∙ ground (arith, text_eq_iff topic topic)

pub check_cursor-encode :
    (topic : Text) (to : Option ℕ)
    → topic ≢ []
    → Fits to
    → check_cursor topic (cursor_at topic to) ≡ ok tt
check_cursor-encode topic none named f = refl
check_cursor-encode topic (some q) named f = rw (decodes topic q named f)

pub to_offset-encode :
    (topic : Text) (to : Option ℕ)
    → topic ≢ []
    → Fits to
    → to_offset topic (cursor_at topic to) ≡ ok to
unfolding to_offset encode
to_offset-encode topic none named f = refl
to_offset-encode [] (some q) named f = absurd (named refl)
to_offset-encode (c ∷ cs) (some q) named f = rw (decodes (c ∷ cs) q named f)

pub earliest-same : text_eq earliest earliest ≡ true
unfolding text_eq
earliest-same = refl

pub earliest-latest : text_eq earliest latest ≡ false
unfolding text_eq
earliest-latest = refl

pub latest-same : text_eq latest latest ≡ true
unfolding text_eq
latest-same = refl

pub latest-earliest : text_eq latest earliest ≡ false
unfolding text_eq
latest-earliest = refl

-- The two sentinels, in the store in memory.
pub memory-earliest :
    (topic : Text) (to_cursor : Option Text) (limit now now' : ℕ) (logs : EventStore)
    → EventStore.read topic (some earliest) to_cursor limit now now' logs
      ≡ EventStore.read topic none to_cursor limit now now' logs
unfolding EventStore.read
memory-earliest topic to_cursor limit now now' logs = elim (Option-cases (get topic logs)) [
  | inl missing ↦ rw (EventStore.read, missing)
  | inr (log, found) ↦ rw (EventStore.read, found, earliest-same)
]

pub memory-latest :
    (topic : Text) (to_cursor : Option Text) (limit now now' : ℕ) (logs : EventStore)
    (log : TopicLog)
    → get topic logs ≡ some log
    → EventStore.read topic (some latest) to_cursor limit now now' logs ≡ ok ([], none)
unfolding EventStore.read
memory-latest topic to_cursor limit now now' logs log found =
    rw (EventStore.read, found, latest-earliest, latest-same)

pub memory-undeclared :
    (topic : Text) (from_cursor to_cursor : Option Text) (limit now now' : ℕ) (logs : EventStore)
    → get topic logs ≡ none
    → EventStore.read topic from_cursor to_cursor limit now now' logs
      ≡ raise (protocol topic_not_found)
unfolding EventStore.read
memory-undeclared topic from_cursor to_cursor limit now now' logs missing =
    rw (EventStore.read, missing)

pub undeclared-get_topic :
    (out : Outside) (topic : Text) (db : Tables)
    → find_row topic db.topics ≡ none
    → get_topic out topic db ≡ raise (protocol topic_not_found)
unfolding get_topic
undeclared-get_topic out topic db missing = rw (get_topic, missing)

module _ (out : Outside) (topic : Text) (db : Tables) where
  pub read_rows-chain :
      (from_cursor to_cursor : Option Text) (limit now : ℕ)
      → read_rows out topic from_cursor to_cursor limit now db ≡ (do
        check_cursor topic to_cursor
        t ← get_topic out topic db
        page_rows limit
            (select_rows out topic from_cursor to_cursor t.retention_seconds (limit + 1) now db))
  unfolding read_rows
  read_rows-chain from_cursor to_cursor limit now = refl

  pub read-chain :
      (from_cursor to_cursor : Option Text) (limit now now' : ℕ)
      → read out topic from_cursor to_cursor limit now now' db ≡ (do
        _ ← get_topic out topic db
        elim from_cursor [
          | none ↦ read_rows out topic none to_cursor limit now db
          | some cursor ↦
              if text_eq cursor latest
              then ok ([], none)
              else if text_eq cursor earliest
              then read_rows out topic none to_cursor limit now db
              else (do
                _ ← offset_for topic cursor
                oldest ← oldest_available_cursor out topic now' db
                check_oldest cursor oldest
                read_rows out topic (some cursor) to_cursor limit now db)
        ])
  unfolding read
  read-chain from_cursor to_cursor limit now now' = refl

  pub undeclared-read :
      (from_cursor to_cursor : Option Text) (limit now now' : ℕ)
      → find_row topic db.topics ≡ none
      → read out topic from_cursor to_cursor limit now now' db ≡ raise (protocol topic_not_found)
  undeclared-read from_cursor to_cursor limit now now' missing =
      rw (read-chain, undeclared-get_topic out topic db missing)
