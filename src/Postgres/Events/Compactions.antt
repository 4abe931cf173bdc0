-- ===== src/Postgres/Events/Compactions.antt =====
-- Compactions of the Postgres event store against those of the store in memory.
use a2a_events_python.Common.{
  ℕ, ◌+◌, ◌≡◌, refl, ap, Option, none, some, List, [], ◌∷◌, map, arith, All, Bool-cases, inl, inr,
  Text, text_eq, text_eq_iff, get, put, get-put, keys,
}
use a2a_events_python.Errors.{ok, raise}
use a2a_events_python.Models.{Topic}
use a2a_events_python.EventStore
use a2a_events_python.EventStore.{EventRecord, TopicLog, EventStore, is_live, compact_log}
use a2a_events_python.Postgres.{Outside}
use a2a_events_python.Postgres.Events.{TopicRow, Tables, topics, compact_one, compact_all, compact}
use a2a_events_python.Postgres.Events.Deletes.{memory-compact_one, compact_one-agrees}
use a2a_events_python.Postgres.Events.Represents.{Represents}

abbrev Declared : EventStore → Text → Type 0
Declared logs name = (log : TopicLog) × (get name logs ≡ some log)

Declared-put :
    (name t : Text) (log : TopicLog) (logs : EventStore)
    → Declared logs t
    → Declared (put name log logs) t
Declared-put name t log logs (l, found) = elim (Bool-cases (text_eq name t)) [
  | inl same ↦ (log, ground (arith, get-put name t log logs))
  | inr other ↦ (l, ground (arith, get-put name t log logs))
]

All-Declared-put :
    (name : Text) (log : TopicLog) (logs : EventStore) (names : List Text)
    → All (Declared logs) names
    → All (Declared (put name log logs)) names
All-Declared-put name log logs [] h = tt
All-Declared-put name log logs (t ∷ names) (h, hs) =
    (Declared-put name t log logs h, All-Declared-put name log logs names hs)

Declared-cons :
    (name : Text) (log : TopicLog) (logs : EventStore) (names : List Text)
    → All (Declared logs) names
    → All (Declared ((name, log) ∷ logs)) names
unfolding get
Declared-cons name log logs [] h = tt
Declared-cons name log logs (t ∷ names) ((l, found), hs) = elim (Bool-cases (text_eq name t)) [
  | inl same ↦ ((log, rw same), Declared-cons name log logs names hs)
  | inr other ↦ ((l, rw other found), Declared-cons name log logs names hs)
]

keys-Declared : (logs : EventStore) → All (Declared logs) (keys logs)
unfolding get
keys-Declared [] = tt
keys-Declared ((name, log) ∷ logs) = (
  (log, ground (arith, text_eq_iff name name)),
  Declared-cons name log logs (keys logs) (keys-Declared logs),
)

-- The compaction in memory, with a reading of the clock for each topic.
unfoldable pub compact_each : (Text → ℕ) → List Text → ℕ × EventStore → ℕ × EventStore
compact_each clock [] state = state
compact_each clock (name ∷ names) state =
    compact_each clock names (EventStore.compact_one (clock name) name state)

-- With one reading for all topics it is the loop of the store in memory.
pub compact_each-compact_all :
    (now : ℕ) (names : List Text) (state : ℕ × EventStore)
    → compact_each (λ _. now) names state ≡ EventStore.compact_all now names state
unfolding compact_each EventStore.compact_all
compact_each-compact_all now [] state = refl
compact_each-compact_all now (name ∷ names) state =
    compact_each-compact_all now names (EventStore.compact_one now name state)

compact_all-step :
    (out : Outside) (clock : Text → ℕ) (name : Text) (names : List Text) (removed removed' : ℕ)
    (db db' : Tables)
    → compact_one out (clock name) name removed db ≡ (ok removed', db')
    → compact_all out clock (name ∷ names) removed db ≡ compact_all out clock names removed' db'
unfolding compact_all
compact_all-step out clock name names removed removed' db db' e =
    ap (λ x. elim x.0 [ raise r ↦ (raise r, x.1) | ok n ↦ compact_all out clock names n x.1 ]) e

compact_all-agrees :
    (out : Outside) (clock : Text → ℕ) (names : List Text) (removed : ℕ) (db : Tables)
    (logs : EventStore)
    → Represents out db logs
    → All (Declared logs) names
    → ((compact_all out clock names removed db).0 ≡ ok (compact_each clock names (removed, logs)).0)
      × Represents out
          (compact_all out clock names removed db).1
          (compact_each clock names (removed, logs)).1
unfolding compact_all compact_each
compact_all-agrees out clock [] removed db logs represents declared = (refl, represents)
compact_all-agrees out clock (name ∷ names) removed db logs represents ((log, at), declared) =
    let now : ℕ = clock name in
    let (db', e, represents') = compact_one-agrees out now name removed db logs represents log at in
    rw
      (
        compact_all-step out clock name names removed (removed + (compact_log now log).0) db db' e,
        compact_each,
        memory-compact_one now name removed logs log at,
      )
      (compact_all-agrees out clock names (removed + (compact_log now log).0) db' _ represents'
        (All-Declared-put name _ logs names declared))

-- The topics that a compaction goes through: the one that is given, or all that are declared.
abbrev pub compacted : Option Text → EventStore → List Text
compacted (some topic) logs = topic ∷ []
compacted none logs = keys logs

-- The topic that is given is declared; where none is, both stores list their topics in one order.
abbrev pub Listed :
    Outside → (List TopicRow → List TopicRow) → Option Text → Tables → EventStore → Type 0
Listed out scan (some topic) db logs = Declared logs topic
Listed out scan none db logs =
    (ts : List Topic) × (topics out scan db ≡ ok ts) × (map (λ t. t.name) ts ≡ keys logs)

compact_each-compact :
    (topic : Option Text) (now : ℕ) (logs : EventStore)
    → compact_each (λ _. now) (compacted topic logs) (0, logs) ≡ EventStore.compact topic now logs
unfolding EventStore.compact
compact_each-compact (some topic) now logs = compact_each-compact_all now (topic ∷ []) (0, logs)
compact_each-compact none now logs = compact_each-compact_all now (keys logs) (0, logs)

-- On a database that represents the logs in memory, the compaction of a declared topic, or of all
-- where the two stores list their topics alike, removes as many events as the loop in memory does
-- if it reads the clock for each topic when the topic's DELETE does, and the database represents
-- the logs which that loop leaves. With one reading for all topics that loop is the compaction in
-- memory.
pub compact_agrees :
    (out : Outside) (scan : List TopicRow → List TopicRow) (topic : Option Text) (clock : Text → ℕ)
    (now : ℕ) (db : Tables) (logs : EventStore)
    → Represents out db logs
    → Listed out scan topic db logs
    → ((compact out scan topic clock db).0
        ≡ ok (compact_each clock (compacted topic logs) (0, logs)).0)
      × Represents out
          (compact out scan topic clock db).1
          (compact_each clock (compacted topic logs) (0, logs)).1
      × (compact_each (λ _. now) (compacted topic logs) (0, logs)
          ≡ EventStore.compact topic now logs)
unfolding compact
compact_agrees out scan (some topic) clock now db logs represents declared =
    let (count, after) =
      compact_all-agrees out clock (topic ∷ []) 0 db logs represents (declared, tt) in
    (count, after, compact_each-compact (some topic) now logs)
compact_agrees out scan none clock now db logs represents (ts, listed, names) =
    let (count, after) =
      compact_all-agrees out clock (keys logs) 0 db logs represents (keys-Declared logs) in
    (
      rw (compact, listed, names) count,
      rw (compact, listed, names) after,
      compact_each-compact none now logs,
    )
