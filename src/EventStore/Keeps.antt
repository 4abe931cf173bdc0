-- ===== src/EventStore/Keeps.antt =====
-- What the operations of the store do to its logs and counts.
use mathlib.Core.Path.{subst}
use a2a_events_python.Common.{
  ℕ, ◌+◌, ◌<◌, ◌≡◌, ◌≢◌, refl, ◌∙◌, Option, some, List, [], ◌∷◌, arith, if◌then◌else◌, Text,
  text_eq, text_eq_iff, Bool-cases, get, put, get-put, Option-cases, inl, inr,
}
use a2a_events_python.Errors.{ok}
use a2a_events_python.Models.{Topic}
use a2a_events_python.Cursor.Decimal.{max_offset}
use a2a_events_python.EventStore.{
  TopicLog, EventStore, NewEvent, declare_topic, count, append, append_to, record_of, compact_log,
  compact_one, compact_all, compact, new_log,
}
use a2a_events_python.EventStore.Log.{IsValidLog, append_to-IsValidLog, compact_log-IsValidLog}

pub record IsValid (logs : EventStore) : Type 0 where
  pub at : (topic : Text) (log : TopicLog) → get topic logs ≡ some log → IsValidLog topic log

-- A write of a valid log keeps every log valid.
put-IsValid :
    (topic : Text) (log : TopicLog) (logs : EventStore)
    → IsValidLog topic log
    → IsValid logs
    → IsValid (put topic log logs)
put-IsValid topic log logs new old = record {
  at = λ t l found. elim (Bool-cases (text_eq topic t)) [
    | inl same ↦
        let e : topic ≡ t = (text_eq_iff topic t).0 same in
        let f : log ≡ l = ground (arith, get-put topic t log logs) in
        subst (λ x. IsValidLog x l) e (subst (IsValidLog topic) f new)
    | inr other ↦ old.at t l (ground (arith, get-put topic t log logs))
  ];
}

compact_log-next :
    (now : ℕ) (log : TopicLog) → (compact_log now log).1.next_offset ≡ log.next_offset
unfolding compact_log
compact_log-next now log = ground arith

-- Publishing to a declared topic with room left gives the event the next offset of its topic,
-- advances that topic's count by one and no other's, and keeps every log valid.
pub append_fresh :
    (topic : Text) (now : ℕ) (e : NewEvent) (logs : EventStore) (log : TopicLog)
    → IsValid logs
    → get topic logs ≡ some log
    → log.next_offset < max_offset
    → ((append topic now e logs).0 ≡ ok (record_of topic (count topic logs) now e))
      × ((other : Text)
          → count other (append topic now e logs).1
            ≡ (if text_eq topic other then count topic logs + 1 else count other logs))
      × IsValid (append topic now e logs).1
unfolding append count
append_fresh topic now e logs log valid found room =
    rw (found, append, count)
      (
        ground (arith, found),
        λ other. ground (arith, found, get-put topic other (append_to topic now e log).1 logs),
        put-IsValid topic (append_to topic now e log).1 logs
            (append_to-IsValidLog topic log (valid.at topic log found) now e room) valid,
      )

module _ (now : ℕ) where
  compact_one-counts :
      (name other : Text) (acc : ℕ × EventStore)
      → count other (compact_one now name acc).1 ≡ count other acc.1
  unfolding compact_one count
  compact_one-counts name other (removed, logs) = elim (Option-cases (get name logs)) [
    | inl missing ↦ rw (missing, compact_one)
    | inr (log, found) ↦
        rw (found, compact_one)
          (ground (
            arith,
            found,
            text_eq_iff name other,
            get-put name other (compact_log now log).1 logs,
            compact_log-next now log,
          ))
  ]

  compact_one-IsValid :
      (name : Text) (acc : ℕ × EventStore) → IsValid acc.1 → IsValid (compact_one now name acc).1
  unfolding compact_one
  compact_one-IsValid name (removed, logs) valid = elim (Option-cases (get name logs)) [
    | inl missing ↦ rw (missing, compact_one) valid
    | inr (log, found) ↦
        rw (found, compact_one)
          (put-IsValid name (compact_log now log).1 logs
            (compact_log-IsValidLog name log (valid.at name log found) now) valid)
  ]

  compact_all-keeps :
      (names : List Text) (acc : ℕ × EventStore)
      → IsValid acc.1
      → IsValid (compact_all now names acc).1
        × ((other : Text) → count other (compact_all now names acc).1 ≡ count other acc.1)
  unfolding compact_all
  compact_all-keeps [] acc valid = (valid, λ other. refl)
  compact_all-keeps (name ∷ names) acc valid =
      let (v, c) =
        compact_all-keeps names (compact_one now name acc) (compact_one-IsValid name acc valid) in
      (v, λ other. c other ∙ compact_one-counts name other acc)

-- Compaction, of one topic or of all, keeps every log valid and leaves the count of every topic,
-- and with it the next offset to be given out, as it was.
pub compact_keeps :
    (topic : Option Text) (now : ℕ) (logs : EventStore)
    → IsValid logs
    → IsValid (compact topic now logs).1
      × ((other : Text) → count other (compact topic now logs).1 ≡ count other logs)
unfolding compact
compact_keeps topic now logs valid = compact_all-keeps now _ (0, logs) valid

-- Declaring a topic with a name keeps every log valid and changes no count.
pub declare_topic_keeps :
    (topic : Topic) (logs : EventStore)
    → topic.name ≢ []
    → IsValid logs
    → IsValid (declare_topic topic logs)
      × ((other : Text) → count other (declare_topic topic logs) ≡ count other logs)
unfolding declare_topic count
declare_topic_keeps topic logs named valid = elim (Option-cases (get topic.name logs)) [
  | inl missing ↦
      rw (missing, declare_topic)
        (
          put-IsValid topic.name _ logs
              (record { named = named; ordered = omega arith; bounded = omega arith; own = tt })
              valid,
          λ other. ground (
            arith,
            missing,
            text_eq_iff topic.name other,
            get-put topic.name other (new_log topic) logs,
          ),
        )
  | inr (log, found) ↦ rw (found, declare_topic) (valid, λ other. refl)
]
