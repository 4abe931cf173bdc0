-- ===== src/Postgres/Events/Reads.antt =====
-- Reads of the Postgres event store against reads of the event store in memory.
use a2a_events_python.Common.{
  ℕ, suc, ◌+◌, ◌<◌, ◌≡◌, refl, sym, ◌∙◌, ap, ◌&&◌, Option, none, some, List, [], ◌∷◌, arith,
  filter_by, Option-cases, inl, inr, Text, take, filter_by, text_eq, get,
}
use a2a_events_python.Errors.{Result, ok, ◌>>◌}
use a2a_events_python.Cursor.{earliest, latest, encode, offset_for}
use a2a_events_python.Cursor.Decimal.{max_offset}
use a2a_events_python.Cursor.Order.{text_lt-encode}
use a2a_events_python.Cursor.RoundTrip.{offset_of-encode}
use a2a_events_python.EventStore
use a2a_events_python.EventStore.{
  EventRecord, TopicLog, EventStore, live_events, is_live, first_cursor, to_offset,
}
use a2a_events_python.EventStore.Log.{
  Ordered, IsValidLog, Ordered-filter, live_events-Ordered, Ordered-le,
}
use a2a_events_python.EventStore.Keeps.{IsValid}
use a2a_events_python.EventStore.Range.{range}
use a2a_events_python.EventStore.Reads.{
  page_of, read_all, read_after, unless_expired, not-earliest, not-latest,
}
use a2a_events_python.Postgres.{Outside, IsSound, order_by}
use a2a_events_python.Postgres.Events.{
  TopicRow, Tables, find_row, rows_of, get_topic, is_retained, oldest_available_cursor, select_rows,
  read_rows, read, after, up_to, check_oldest,
}
use a2a_events_python.Postgres.Events.Represents.{Represents}
use a2a_events_python.Postgres.Events.Steps.{
  retained-live, decodes, check_cursor-encode, to_offset-encode, earliest-same, earliest-latest,
  latest-same, memory-earliest, memory-latest, memory-undeclared, read_rows-chain, read-chain,
  undeclared-read,
}
use a2a_events_python.Postgres.Events.Ordering.{
  filter_by-and, filter_by-swap, start_at, cursor_at, Fits, select-range, order_by-Ordered,
  min_text-first, page_rows-next,
}

-- Where a read begins.
pub data Start : Type 0 where
  unset at_earliest at_latest : Start
  after_offset : ℕ → Start

abbrev pub cursor_of : Text → Start → Option Text
cursor_of topic unset = none
cursor_of topic at_earliest = some earliest
cursor_of topic at_latest = some latest
cursor_of topic (after_offset p) = some (encode topic p)

abbrev pub StartFits : Start → Type 0
StartFits (after_offset p) = p < max_offset
StartFits _ = Unit

module _ (out : Outside) (sound : IsSound out) (topic : Text) (log : TopicLog)
    (valid : IsValidLog topic log) (db : Tables) (row : TopicRow)
    (found : find_row topic db.topics ≡ some row) (loads : out.load row.config ≡ ok log.topic)
    (rows : rows_of topic db ≡ log.events) where
  get_topic-log : get_topic out topic db ≡ ok log.topic
  unfolding get_topic
  get_topic-log = rw (get_topic, found) loads

  selected-range :
      (from to : Option ℕ) (now : ℕ)
      → Fits from
      → Fits to
      → filter_by
          (λ e.
            text_eq e.topic topic
            && (after out (cursor_at topic from) e
                && up_to out (cursor_at topic to) e
                && is_retained log.topic.retention_seconds now e))
          db.events
        ≡ range (start_at from) to (live_events now log)
  selected-range from to now f g =
      rw
        (
          filter_by-and (λ e. text_eq e.topic topic)
              (λ e.
                after out (cursor_at topic from) e
                && up_to out (cursor_at topic to) e
                && is_retained log.topic.retention_seconds now e)
              db.events,
          rows,
          filter_by-swap
              (λ e. after out (cursor_at topic from) e && up_to out (cursor_at topic to) e)
              (is_retained log.topic.retention_seconds now) log.events,
          retained-live now log,
        )
        (select-range out sound topic valid.named from to 0 log.next_offset (live_events now log) f
          g valid.bounded (live_events-Ordered topic log valid now))

  -- The SELECT gives the first rows of a range of the live events.
  select_rows-range :
      (from to : Option ℕ) (n now : ℕ)
      → Fits from
      → Fits to
      → select_rows out topic
          (cursor_at topic from)
          (cursor_at topic to)
          log.topic.retention_seconds
          n
          now
          db
        ≡ take n (range (start_at from) to (live_events now log))
  unfolding select_rows
  select_rows-range from to n now f g =
      ap (λ rs. take n (order_by (λ e e'. out.before e.cursor e'.cursor) rs))
        (selected-range from to now f g)
      ∙ ap (take n) (
          order_by-Ordered out sound topic valid.named 0 log.next_offset _ valid.bounded (
            Ordered-filter topic 0 log.next_offset _ (live_events now log)
              (live_events-Ordered topic log valid now)))

  pub oldest-first :
      (now : ℕ) → oldest_available_cursor out topic now db ≡ ok (first_cursor (live_events now log))
  unfolding oldest_available_cursor
  oldest-first now =
      rw (get_topic-log, rows, retained-live now log)
        (ap ok (
          min_text-first out sound topic valid.named 0 log.next_offset (live_events now log)
            valid.bounded (live_events-Ordered topic log valid now)))

  read_rows-page :
      (from to : Option ℕ) (n now : ℕ)
      → Fits from
      → Fits to
      → read_rows out topic (cursor_at topic from) (cursor_at topic to) (suc n) now db
        ≡ page_of n (range (start_at from) to (live_events now log))
  read_rows-page from to n now f g =
      let more : suc n + 1 ≡ suc (suc n) = omega arith in
      rw
        (
          read_rows-chain out topic db,
          check_cursor-encode topic to valid.named g,
          get_topic-log,
          more,
          select_rows-range from to (suc (suc n)) now f g,
        )
        (page_rows-next n (range (start_at from) to (live_events now log)))

  check_oldest-unless :
      (p now : ℕ) (answer : Result (List EventRecord × Option Text))
      → p < max_offset
      → (check_oldest (encode topic p) (first_cursor (live_events now log)) >> answer)
        ≡ unless_expired p answer (live_events now log)
  check_oldest-unless p now answer k =
      go (live_events now log) (live_events-Ordered topic log valid now)
    where
      go :
          (es : List EventRecord)
          → Ordered topic 0 log.next_offset es
          → (check_oldest (encode topic p) (first_cursor es) >> answer) ≡ unless_expired p answer es
      go [] h = refl
      go (r ∷ rs) (o, e, l, h) =
          let below : o < max_offset =
            omega (arith, Ordered-le topic (suc o) log.next_offset rs h, valid.bounded) in
          rw (e, text_lt-encode topic p o k below, offset_of-encode topic o valid.named below)
            (ground arith)

  read-start :
      (start : Start) (to : Option ℕ) (n now now' : ℕ) (logs : EventStore)
      → get topic logs ≡ some log
      → StartFits start
      → Fits to
      → read out topic (cursor_of topic start) (cursor_at topic to) (suc n) now now' db
        ≡ EventStore.read topic (cursor_of topic start) (cursor_at topic to) (suc n) now now' logs
  read-start unset to n now now' logs at f g =
      rw (read-chain out topic db, get_topic-log, read_rows-page none to n now tt g)
        (sym (
          read_all topic logs log at valid (cursor_at topic to) to
            (to_offset-encode topic to valid.named g) n now now'))
  read-start at_earliest to n now now' logs at f g =
      rw
        (
          read-chain out topic db,
          get_topic-log,
          earliest-latest,
          earliest-same,
          read_rows-page none to n now tt g,
          memory-earliest topic (cursor_at topic to) (suc n) now now' logs,
        )
        (sym (
          read_all topic logs log at valid (cursor_at topic to) to
            (to_offset-encode topic to valid.named g) n now now'))
  read-start at_latest to n now now' logs at f g = rw (
    read-chain out topic db,
    get_topic-log,
    latest-same,
    memory-latest topic (cursor_at topic to) (suc n) now now' logs log at,
  )
  read-start (after_offset p) to n now now' logs at f g =
      let e : offset_for topic (encode topic p) ≡ ok p = decodes topic p valid.named f in
      rw
        (
          read_after topic logs log at valid (cursor_at topic to) to
              (to_offset-encode topic to valid.named g) n now now' (encode topic p) p e,
          read-chain out topic db,
          get_topic-log,
          not-latest topic (encode topic p) p e,
          not-earliest topic (encode topic p) p e,
          e,
          oldest-first now',
          read_rows-page (some p) to n now f g,
        )
        (check_oldest-unless p now' _ f)

-- On a database that represents the logs of a valid store in memory, a read of at least one event
-- from nowhere, from a sentinel or from a cursor the code has issued, and up to such a cursor or
-- to the end, answers what the store in memory answers: the same events, the same next cursor, or
-- the same exception.
pub read_agrees :
    (out : Outside) (db : Tables) (logs : EventStore) (topic : Text) (start : Start) (to : Option ℕ)
    (n now now' : ℕ)
    → IsSound out
    → Represents out db logs
    → IsValid logs
    → StartFits start
    → Fits to
    → read out topic (cursor_of topic start) (cursor_at topic to) (suc n) now now' db
      ≡ EventStore.read topic (cursor_of topic start) (cursor_at topic to) (suc n) now now' logs
read_agrees out db logs topic start to n now now' sound represents valid f g =
    elim (Option-cases (get topic logs)) [
      | inl missing ↦
          undeclared-read out topic db _ _ (suc n) now now' (represents.undeclared topic missing).0
          ∙ sym (memory-undeclared topic _ _ (suc n) now now' logs missing)
      | inr (log, at) ↦
          let (row, found, loads, next, rows) = represents.declared topic log at in
          read-start out sound topic log (valid.at topic log at) db row found loads rows start to n
            now now' logs at f g
    ]
