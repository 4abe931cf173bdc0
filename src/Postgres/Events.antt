-- ===== src/Postgres/Events.antt =====
-- runtime/postgres/event_store.py. The tables are `a2a_event_topics` and `a2a_events`; `now` is the
-- start of the transaction. JSONB gives a payload back as it was put.
pub mod Ordering
pub mod Represents
pub mod Steps
pub mod Reads
pub mod Offsets
pub mod Appends
pub mod Deletes
pub mod Compactions
pub mod Declarations
pub mod Cursors
use a2a_events_python.Common.{
  ℕ, ◌+◌, ◌-◌, Bool, true, not, ◌&&◌, ◌||◌, Option, none, some, List, [], ◌∷◌, ◌++◌, map, ltb, leb,
  if◌then◌else◌, length, filter_by, any_by, take, last?, Text, text_eq,
}
use a2a_events_python.Json.{Json}
use a2a_events_python.Errors.{
  Result, ok, raise, protocol, index_error, foreign, topic_not_found, cursor_expired, ◌>>=◌, ◌>>◌,
}
use a2a_events_python.Exec.{Exec}
use a2a_events_python.Models.{Topic}
use a2a_events_python.Cursor.{earliest, latest, encode, offset_for, text_lt}
use a2a_events_python.EventStore.{EventRecord, NewEvent, record_of, is_live}
use a2a_events_python.Postgres.{Outside, order_by, min_text, max_text, in_integer, out_of_range}

pub record TopicRow : Type 0 where
  pub topic : Text
  pub schema_url : Option Text
  pub retention_seconds : ℕ
  pub replay_enabled : Bool
  pub config : Json
  pub next_offset : ℕ
  pub created_at : ℕ

-- A row of `a2a_events` has the fields of an `EventRecord`.
pub record Tables : Type 0 where
  pub topics : List TopicRow
  pub events : List EventRecord

abbrev pub find_row : Text → List TopicRow → Option TopicRow
find_row topic [] = none
find_row topic (r ∷ rs) =
    let rest = find_row topic rs in if text_eq r.topic topic then some r else rest

-- SELECT ... FROM a2a_events WHERE topic = %s
abbrev pub rows_of : Text → Tables → List EventRecord
rows_of topic db = filter_by (λ e. text_eq e.topic topic) db.events

module _ (out : Outside) where
  -- INSERT ... ON CONFLICT (topic) DO NOTHING
  abbrev pub declared_row : Topic → ℕ → TopicRow
  declared_row topic now = record {
    topic = topic.name;
    schema_url = topic.schema_url;
    retention_seconds = topic.retention_seconds;
    replay_enabled = topic.replay;
    config = out.dump topic;
    next_offset = 0;
    created_at = now;
  }

  unfoldable pub insert_topic : Topic → ℕ → Tables → Tables
  insert_topic topic now db = elim (find_row topic.name db.topics) [
    | some _ ↦ db
    | none ↦ record db { topics = db.topics ++ declared_row topic now ∷ [] }
  ]

  -- the value of an INTEGER column is converted before a conflict is looked for
  unfoldable pub declare_topic : Topic → ℕ → Exec Tables (Unit {0})
  declare_topic topic now db =
      if in_integer topic.retention_seconds
      then (ok tt, insert_topic topic now db)
      else (raise (foreign out_of_range), db)

  unfoldable pub get_topic : Text → Tables → Result Topic
  get_topic name db = elim (find_row name db.topics) [
    | none ↦ raise (protocol topic_not_found)
    | some row ↦ out.load row.config
  ]

  abbrev load_all : List TopicRow → Result (List Topic)
  load_all [] = ok []
  load_all (r ∷ rs) = do t ← out.load r.config; ts ← load_all rs; ok (t ∷ ts)

  -- the rows come as `scan` gives them, those of one time in any order
  unfoldable pub topics : (List TopicRow → List TopicRow) → Tables → Result (List Topic)
  topics scan db = load_all (order_by (λ r r'. ltb r.created_at r'.created_at) (scan db.topics))

-- UPDATE a2a_event_topics SET next_offset = %s WHERE topic = %s
abbrev pub set_next_offset : Text → ℕ → List TopicRow → List TopicRow
set_next_offset topic next [] = []
set_next_offset topic next (r ∷ rs) =
    (if text_eq r.topic topic then record r { next_offset = next } else r)
    ∷ set_next_offset topic next rs

unfoldable pub count : Text → Tables → ℕ
count topic db = elim (find_row topic db.topics) [ none ↦ 0 | some row ↦ row.next_offset ]

-- What the lookup in `append` finds, and the rows of the topic, whichever is more.
unfoldable pub next_offset : Text → Tables → ℕ
unfolding count
next_offset topic db =
    if ltb (count topic db) (length (rows_of topic db))
    then length (rows_of topic db)
    else count topic db

-- The primary key and the UNIQUE column refuse a row that repeats an id or a cursor.
abbrev pub conflicts : EventRecord → List EventRecord → Bool
conflicts r = any_by (λ e. text_eq e.event_id r.event_id || text_eq e.cursor r.cursor)

-- psycopg's UniqueViolation
abbrev pub unique_violation : ℕ
unique_violation = 1

-- the transaction of `append`, under the lock of the topic
unfoldable pub insert_event : EventRecord → ℕ → Exec Tables EventRecord
insert_event r offset db =
    if conflicts r db.events then (raise (foreign unique_violation), db) else (
      ok r,
      record db {
        topics = set_next_offset r.topic (offset + 1) db.topics;
        events = db.events ++ r ∷ [];
      },
    )

module _ (out : Outside) where
  unfoldable pub append : Text → ℕ → NewEvent → Exec Tables EventRecord
  unfolding get_topic next_offset insert_event record_of
  append topic now e db = elim (get_topic out topic db) [
    | raise x ↦ (raise x, db)
    | ok _ ↦ insert_event (record_of topic (next_offset topic db) now e) (next_offset topic db) db
  ]

-- DELETE FROM a2a_events WHERE topic = %s AND created_at < now() - make_interval(secs => %s)
abbrev pub delete_expired : Text → ℕ → ℕ → Tables → Tables
delete_expired name retention now db = record db {
  events = filter_by (λ e. not (text_eq e.topic name && not (is_live retention now e))) db.events;
}

-- created_at >= now() - make_interval(secs => %s), where the topic has a retention
abbrev pub is_retained : ℕ → ℕ → EventRecord → Bool
is_retained retention now e = leb retention 0 || is_live retention now e

-- `rows` has one row more than the limit where there is a next page; `records[-1]` of no record
-- is an IndexError.
unfoldable pub page_rows : ℕ → List EventRecord → Result (List EventRecord × Option Text)
page_rows limit rows =
    let records = take limit rows in
    if ltb limit (length rows)
    then elim (last? records) [ none ↦ raise index_error | some r ↦ ok (records, some r.cursor) ]
    else ok (records, none)

abbrev pub check_cursor : Text → Option Text → Result (Unit {0})
check_cursor topic none = ok tt
check_cursor topic (some cursor) = do _ ← offset_for topic cursor; ok tt

abbrev pub check_oldest : Text → Option Text → Result (Unit {0})
check_oldest from_cursor none = ok tt
check_oldest from_cursor (some oldest) =
    if text_lt from_cursor oldest then raise (protocol cursor_expired) else ok tt

module _ (out : Outside) where
  -- one round of the loop of `compact`
  unfoldable pub compact_one : ℕ → Text → ℕ → Exec Tables ℕ
  unfolding get_topic is_live
  compact_one now name removed db = elim (get_topic out name db) [
    | raise x ↦ (raise x, db)
    | ok t ↦
        if leb t.retention_seconds 0
        then (ok removed, db)
        else let db' = delete_expired name t.retention_seconds now db in
          (ok (removed + (length db.events - length db'.events)), db')
  ]

  -- each DELETE is a transaction of its own: `clock` is its time, by the topic
  unfoldable pub compact_all : (Text → ℕ) → List Text → ℕ → Exec Tables ℕ
  compact_all clock [] removed db = (ok removed, db)
  compact_all clock (name ∷ names) removed db =
      let (r, db') = compact_one (clock name) name removed db in
      elim r [ raise x ↦ (raise x, db') | ok removed' ↦ compact_all clock names removed' db' ]

  unfoldable pub compact :
      (List TopicRow → List TopicRow) → Option Text → (Text → ℕ) → Exec Tables ℕ
  unfolding topics compact_all
  compact scan (some topic) clock db = compact_all clock (topic ∷ []) 0 db
  compact scan none clock db = elim (topics out scan db) [
    | raise x ↦ (raise x, db)
    | ok ts ↦ compact_all clock (map (λ t. t.name) ts) 0 db
  ]

  unfoldable pub oldest_available_cursor : Text → ℕ → Tables → Result (Option Text)
  unfolding get_topic is_live
  oldest_available_cursor topic now db = do
    t ← get_topic out topic db
    ok (
        min_text out.before (
          map (λ e. e.cursor) (filter_by (is_retained t.retention_seconds now) (rows_of topic db))))

  unfoldable pub latest_cursor : Text → Tables → Text
  unfolding count
  latest_cursor topic db = elim (max_text out.before (map (λ e. e.cursor) (rows_of topic db))) [
    | some c ↦ c
    | none ↦ encode topic (count topic db - 1)
  ]

  abbrev pub after : Option Text → EventRecord → Bool
  after none e = true
  after (some from_cursor) e = out.before from_cursor e.cursor

  abbrev pub up_to : Option Text → EventRecord → Bool
  up_to none e = true
  up_to (some to_cursor) e = not (out.before to_cursor e.cursor)

  -- the SELECT of `read`, whose condition on the age is there only for a topic with a retention
  unfoldable pub select_rows :
      Text → Option Text → Option Text → ℕ → ℕ → ℕ → Tables → List EventRecord
  unfolding is_live
  select_rows topic from_cursor to_cursor retention count now db =
      let selected =
        filter_by
          (λ e.
            text_eq e.topic topic
            && (after from_cursor e && up_to to_cursor e && is_retained retention now e))
          db.events in
      take count (order_by (λ e e'. out.before e.cursor e'.cursor) selected)

  unfoldable pub read_rows :
      Text → Option Text → Option Text → ℕ → ℕ → Tables → Result (List EventRecord × Option Text)
  unfolding get_topic select_rows page_rows
  read_rows topic from_cursor to_cursor limit now db = do
    check_cursor topic to_cursor
    t ← get_topic out topic db
    page_rows limit (select_rows topic from_cursor to_cursor t.retention_seconds (limit + 1) now db)

  -- `now'` is read by `oldest_available_cursor`, `now` by the SELECT
  unfoldable pub read :
      Text
      → Option Text
      → Option Text
      → ℕ
      → ℕ
      → ℕ
      → Tables
      → Result (List EventRecord × Option Text)
  unfolding get_topic oldest_available_cursor read_rows
  read topic from_cursor to_cursor limit now now' db = do
    _ ← get_topic out topic db
    elim from_cursor [
      | none ↦ read_rows topic none to_cursor limit now db
      | some cursor ↦
          if text_eq cursor latest
          then ok ([], none)
          else if text_eq cursor earliest
          then read_rows topic none to_cursor limit now db
          else (do
            _ ← offset_for topic cursor
            oldest ← oldest_available_cursor topic now' db
            check_oldest cursor oldest
            read_rows topic (some cursor) to_cursor limit now db)
    ]
