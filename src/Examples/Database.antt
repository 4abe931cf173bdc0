-- ===== src/Examples/Database.antt =====
-- A database to run the Postgres stores on: topics dumped as JSON objects, texts ordered by their
-- code points, and the tables of one topic.
use a2a_events_python.Common.{
  ◌≡◌, refl, true, false, Option, none, some, List, [], ◌∷◌, Text, pos, pos_part,
}
use a2a_events_python.Json.{Json, null, bool, int, str, arr, Items, nil, cons}
use a2a_events_python.Errors.{Result, ok, raise, value_error}
use a2a_events_python.Models.{Topic, DeliveryMode, webhook, a2a_message}
use a2a_events_python.Cursor.{text_lt}
use a2a_events_python.Cursor.Order.{text_lt-encode}
use a2a_events_python.EventStore.{TopicLog}
use a2a_events_python.Postgres.{Outside, IsSound}
use a2a_events_python.Postgres.Events.{TopicRow, Tables}
use a2a_events_python.Examples.{orders, orders_topic, orders_log}

abbrev dump_texts : List Text → Items
dump_texts [] = nil
dump_texts (t ∷ ts) = cons (str t) (dump_texts ts)

abbrev load_texts : Items → List Text
load_texts nil = []
load_texts (cons (str t) ts) = t ∷ load_texts ts
load_texts (cons _ ts) = load_texts ts

load-dump_texts : (ts : List Text) → load_texts (dump_texts ts) ≡ ts
load-dump_texts [] = refl
load-dump_texts (t ∷ ts) = rw (load-dump_texts ts)

abbrev dump_modes : List DeliveryMode → Items
dump_modes [] = nil
dump_modes (webhook ∷ ms) = cons (bool true) (dump_modes ms)
dump_modes (a2a_message ∷ ms) = cons (bool false) (dump_modes ms)

abbrev load_modes : Items → List DeliveryMode
load_modes nil = []
load_modes (cons (bool true) ms) = webhook ∷ load_modes ms
load_modes (cons _ ms) = a2a_message ∷ load_modes ms

load-dump_modes : (ms : List DeliveryMode) → load_modes (dump_modes ms) ≡ ms
load-dump_modes [] = refl
load-dump_modes (webhook ∷ ms) = rw (load-dump_modes ms)
load-dump_modes (a2a_message ∷ ms) = rw (load-dump_modes ms)

abbrev dump_text : Option Text → Json
dump_text none = null
dump_text (some t) = str t

abbrev load_text : Json → Option Text
load_text (str t) = some t
load_text _ = none

abbrev dump_filter : Option (List Text) → Json
dump_filter none = null
dump_filter (some ts) = arr (dump_texts ts)

abbrev load_filter : Json → Option (List Text)
load_filter (arr ts) = some (load_texts ts)
load_filter _ = none

-- A topic as a list of its values.
abbrev dump_topic : Topic → Json
dump_topic t = arr (
    cons (str t.name) (
      cons (str t.description) (
        cons (dump_text t.schema_url) (
          cons (int (pos t.retention_seconds)) (
            cons (bool t.replay) (
              cons (arr (dump_texts t.selector_types)) (
                cons (dump_filter t.filterable_fields)
                  (cons (arr (dump_modes t.delivery_modes)) nil))))))))

abbrev load_topic : Json → Result Topic
load_topic
      (arr (
        cons (str name) (
          cons (str description) (
            cons schema_url (
              cons (int retention) (
                cons
                  (bool replay)
                  (cons (arr selectors) (cons filterable (cons (arr modes) nil))))))))) =
    ok (record {
      name = name;
      description = description;
      schema_url = load_text schema_url;
      retention_seconds = pos_part retention;
      replay = replay;
      selector_types = load_texts selectors;
      filterable_fields = load_filter filterable;
      delivery_modes = load_modes modes;
    })
load_topic _ = raise value_error

abbrev pub out : Outside
out = record { dump = dump_topic; load = load_topic; before = text_lt }

load-dump_text : (t : Option Text) → load_text (dump_text t) ≡ t
load-dump_text none = refl
load-dump_text (some t) = refl

load-dump_filter : (f : Option (List Text)) → load_filter (dump_filter f) ≡ f
load-dump_filter none = refl
load-dump_filter (some ts) = rw (load-dump_texts ts)

pub out-IsSound : IsSound out
out-IsSound = record {
  loads = λ t. rw (
    load-dump_text t.schema_url,
    load-dump_texts t.selector_types,
    load-dump_filter t.filterable_fields,
    load-dump_modes t.delivery_modes,
  );
  orders = text_lt-encode;
}

-- the log of `orders` with a retention of a second
abbrev pub aging_log : TopicLog
aging_log = record orders_log { topic = record orders_topic { retention_seconds = 1 } }

abbrev pub row_of : TopicLog → TopicRow
row_of log = record {
  topic = orders;
  schema_url = none;
  retention_seconds = log.topic.retention_seconds;
  replay_enabled = true;
  config = out.dump log.topic;
  next_offset = log.next_offset;
  created_at = 1;
}

abbrev pub tables_of : TopicLog → Tables
tables_of log = record { topics = row_of log ∷ []; events = log.events }
