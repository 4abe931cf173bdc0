-- ===== src/EventStore.antt =====
-- runtime/memory/event_store.py: append-only logs per topic, and `EventRecord` of
-- runtime/contracts.py. A method takes the readings of the clock that it makes, in order; a reading
-- that a branch does not make is left unread. `_logs` is a dictionary from topic names to logs.
pub mod Log
pub mod Reads
pub mod Keeps
pub mod Range
use a2a_events_python.Common.{
  ℕ, ◌+◌, ◌-◌, ◌*◌, Bool, true, false, not, ◌&&◌, Option, none, some, List, [], ◌∷◌, ◌++◌, map, ltb,
  leb, if◌then◌else◌, length, filter_by, last?, Text, text_eq, Dict, get, put, keys, values,
}
use a2a_events_python.Json.{Fields}
use a2a_events_python.Errors.{
  Result, ok, raise, protocol, key_error, topic_not_found, cursor_expired, ◌>>=◌, ◌>>◌,
}
use a2a_events_python.Exec.{Exec}
use a2a_events_python.Models.{Topic}
use a2a_events_python.Cursor.{earliest, latest, encode, offset_of, offset_for}

pub record EventRecord : Type 0 where
  pub event_id : Text
  pub topic : Text
  pub cursor : Text
  pub event_type : Text
  pub source : Text
  pub payload : Fields
  pub subject : Option Text
  pub created_at : ℕ
  pub content_hash : Text

pub record TopicLog : Type 0 where
  pub topic : Topic
  pub events : List EventRecord
  pub next_offset : ℕ

abbrev pub EventStore : Type 0
EventStore = Dict TopicLog

abbrev pub new_log : Topic → TopicLog
new_log topic = record { topic = topic; events = []; next_offset = 0 }

-- dict.setdefault: the first declaration of a name wins
unfoldable pub declare_topic : Topic → EventStore → EventStore
declare_topic topic logs = elim (get topic.name logs) [
  | none ↦ put topic.name (new_log topic) logs
  | some _ ↦ logs
]

unfoldable pub get_topic : Text → EventStore → Result Topic
get_topic name logs = elim (get name logs) [
  | none ↦ raise (protocol topic_not_found)
  | some log ↦ ok log.topic
]

unfoldable pub topics : EventStore → List Topic
topics logs = map (λ log. log.topic) (values logs)

unfoldable pub count : Text → EventStore → ℕ
count topic logs = elim (get topic logs) [ none ↦ 0 | some log ↦ log.next_offset ]

-- What the caller of `append` supplies, and what the store draws: a fresh id and the hash.
pub record NewEvent : Type 0 where
  pub event_id : Text
  pub event_type : Text
  pub source : Text
  pub payload : Fields
  pub subject : Option Text
  pub content_hash : Text

unfoldable pub record_of : Text → ℕ → ℕ → NewEvent → EventRecord
record_of topic offset now e = record {
  event_id = e.event_id;
  topic = topic;
  cursor = encode topic offset;
  event_type = e.event_type;
  source = e.source;
  payload = e.payload;
  subject = e.subject;
  created_at = now;
  content_hash = e.content_hash;
}

unfoldable pub append_to : Text → ℕ → NewEvent → TopicLog → EventRecord × TopicLog
append_to topic now e log =
    let r = record_of topic log.next_offset now e in
    (r, record log { events = log.events ++ r ∷ []; next_offset = log.next_offset + 1 })

unfoldable pub append : Text → ℕ → NewEvent → Exec EventStore EventRecord
unfolding append_to record_of
append topic now e logs = elim (get topic logs) [
  | none ↦ (raise (protocol topic_not_found), logs)
  | some log ↦ let (r, log') = append_to topic now e log in (ok r, put topic log' logs)
]

abbrev pub second : ℕ
second = 1_000_000

-- created_at >= now - retention
unfoldable pub is_live : ℕ → ℕ → EventRecord → Bool
is_live retention now e = leb now (e.created_at + retention * second)

unfoldable pub compact_log : ℕ → TopicLog → ℕ × TopicLog
unfolding is_live
compact_log now log =
    if leb log.topic.retention_seconds 0
    then (0, log)
    else let kept = filter_by (is_live log.topic.retention_seconds now) log.events in
      (length log.events - length kept, record log { events = kept })

-- one round of the loop of `compact`, over `removed` and `_logs`
unfoldable pub compact_one : ℕ → Text → ℕ × EventStore → ℕ × EventStore
compact_one now name (removed, logs) = elim (get name logs) [
  | none ↦ (removed, logs)
  | some log ↦ (removed + (compact_log now log).0, put name (compact_log now log).1 logs)
]

unfoldable pub compact_all : ℕ → List Text → ℕ × EventStore → ℕ × EventStore
compact_all now [] acc = acc
compact_all now (name ∷ names) acc = compact_all now names (compact_one now name acc)

unfoldable pub compact : Option Text → ℕ → EventStore → ℕ × EventStore
compact topic now logs =
    compact_all now (elim topic [ none ↦ keys logs | some name ↦ name ∷ [] ]) (0, logs)

-- `_live_events` of a log; the callers have looked the topic up
unfoldable pub live_events : ℕ → TopicLog → List EventRecord
unfolding is_live
live_events now log =
    if leb log.topic.retention_seconds 0
    then log.events
    else filter_by (is_live log.topic.retention_seconds now) log.events

abbrev pub first_cursor : List EventRecord → Option Text
first_cursor [] = none
first_cursor (e ∷ _) = some e.cursor

unfoldable pub oldest_available_cursor : Text → ℕ → EventStore → Result (Option Text)
unfolding live_events
oldest_available_cursor topic now logs = elim (get topic logs) [
  | none ↦ raise key_error
  | some log ↦ ok (first_cursor (live_events now log))
]

-- On ℕ, `next_offset - 1` is `max(next_offset - 1, 0)`.
unfoldable pub latest_cursor : Text → EventStore → Result Text
latest_cursor topic logs = elim (get topic logs) [
  | none ↦ raise key_error
  | some log ↦ elim (last? log.events) [
    | some e ↦ ok e.cursor
    | none ↦ ok (encode topic (log.next_offset - 1))
  ]
]

-- Where a read starts: at offsets not below `start`. The code's `start_offset` is one less, so
-- that -1 is 0 here, and `offset <= start_offset` is `offset < start`.
unfoldable pub within : Option ℕ → ℕ → Bool
within none offset = true
within (some last) offset = leb offset last

-- any(offset < offset_of(r) and (to is None or offset_of(r) <= to) for r in live)
unfoldable pub has_more : ℕ → Option ℕ → List EventRecord → Result Bool
unfolding within
has_more offset to [] = ok false
has_more offset to (r ∷ live) =
    let rest = has_more offset to live in
    do o ← offset_of r.cursor; if ltb offset o && within to o then ok true else rest

-- the loop of `read`; `live` is the whole list, which `has_more` looks through
unfoldable pub collect :
    List EventRecord
    → ℕ
    → Option ℕ
    → ℕ
    → List EventRecord
    → List EventRecord
    → Result (List EventRecord × Option Text)
unfolding within has_more
collect live start to limit out [] = ok (out, none)
collect live start to limit out (r ∷ rest) =
    let skip = collect live start to limit out rest in
    let next = collect live start to limit (out ++ r ∷ []) rest in
    do
      offset ← offset_of r.cursor
      if ltb offset start
          then skip
          else if not (within to offset)
          then ok (out, none)
          else if leb limit (length out + 1)
          then (do
            more ← has_more offset to live
            ok (out ++ r ∷ [], if more then some r.cursor else none))
          else next

-- A cursor that an expired event has left behind is refused.
unfoldable pub check_retained : ℕ → Option Text → Result (Unit {0})
check_retained start none = ok tt
check_retained start (some oldest) = do
  o ← offset_of oldest
  if ltb start o then raise (protocol cursor_expired) else ok tt

abbrev optional_offset : Text → Option Text → Result (Option ℕ)
optional_offset topic none = ok none
optional_offset topic (some cursor) = do o ← offset_for topic cursor; ok (some o)

-- `to_cursor` is used `if to_cursor`, so an empty text counts as none
unfoldable pub to_offset : Text → Option Text → Result (Option ℕ)
to_offset topic none = ok none
to_offset topic (some []) = ok none
to_offset topic (some (c ∷ cs)) = do o ← offset_for topic (c ∷ cs); ok (some o)

unfoldable pub read_from :
    Text → ℕ → List EventRecord → Option Text → ℕ → Result (List EventRecord × Option Text)
read_from topic start live to_cursor limit = do
  to ← to_offset topic to_cursor
  collect live start to limit [] live

-- `now` is read by the first `_live_events`, `now'` by the one in `oldest_available_cursor`
unfoldable pub read :
    Text
    → Option Text
    → Option Text
    → ℕ
    → ℕ
    → ℕ
    → EventStore
    → Result (List EventRecord × Option Text)
read topic from_cursor to_cursor limit now now' logs = elim (get topic logs) [
  | none ↦ raise (protocol topic_not_found)
  | some log ↦
      let live = live_events now log in
      elim from_cursor [
        | none ↦ read_from topic 0 live to_cursor limit
        | some cursor ↦
            if text_eq cursor earliest
            then read_from topic 0 live to_cursor limit
            else if text_eq cursor latest
            then ok ([], none)
            else (do
              start ← offset_for topic cursor
              check_retained start (first_cursor (live_events now' log))
              read_from topic (start + 1) live to_cursor limit)
      ]
]
