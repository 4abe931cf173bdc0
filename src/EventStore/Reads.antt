-- ===== src/EventStore/Reads.antt =====
-- What `read` answers on a valid log.
use a2a_events_python.Common.{
  ℕ, suc, ◌+◌, ◌≡◌, refl, ap, false, Option, none, some, List, [], ◌∷◌, arith, ltb, if◌then◌else◌,
  Bool-cases, inl, inr, Text, text_eq, text_eq_iff, take, get,
}
use a2a_events_python.Errors.{Result, ok, raise, protocol, cursor_expired, ◌>>◌}
use a2a_events_python.Cursor.{earliest, latest, offset_for}
use a2a_events_python.EventStore.{
  EventRecord, TopicLog, EventStore, live_events, to_offset, read_from, check_retained, read,
  first_cursor,
}
use a2a_events_python.EventStore.Log.{Sorted, IsValidLog, live_events-Sorted}
use a2a_events_python.EventStore.Range.{range, next_cursor, collect-expected, offset}

abbrev pub page_of : ℕ → List EventRecord → Result (List EventRecord × Option Text)
page_of n rs = ok (take (suc n) rs, next_cursor (suc n) rs)

read_from-page :
    (topic : Text) (start n hi : ℕ) (live : List EventRecord) (to_cursor : Option Text)
    (to : Option ℕ)
    → Sorted 0 hi live
    → to_offset topic to_cursor ≡ ok to
    → read_from topic start live to_cursor (suc n) ≡ page_of n (range start to live)
unfolding read_from
read_from-page topic start n hi live to_cursor to sorted e = rw e (
    collect-expected live hi start to sorted 0 n (suc n) [] live sorted (λ o k. refl) (omega arith))

-- A cursor that decodes is none of the two sentinels.
pub not-earliest : (topic c : Text) (p : ℕ) → offset_for topic c ≡ ok p → text_eq c earliest ≡ false
unfolding offset_for
not-earliest topic c p e = elim (Bool-cases (text_eq c earliest)) [
  | inl same ↦ cc (ap (offset_for topic) ((text_eq_iff c earliest).0 same))
  | inr other ↦ other
]

pub not-latest : (topic c : Text) (p : ℕ) → offset_for topic c ≡ ok p → text_eq c latest ≡ false
unfolding offset_for
not-latest topic c p e = elim (Bool-cases (text_eq c latest)) [
  | inl same ↦ cc (ap (offset_for topic) ((text_eq_iff c latest).0 same))
  | inr other ↦ other
]

-- `answer`, unless the oldest event lies past offset `p`
abbrev pub unless_expired {ℓ} : {A : Type ℓ} → ℕ → Result A → List EventRecord → Result A
unless_expired p answer [] = answer
unless_expired p answer (oldest ∷ _) =
    if ltb p (offset oldest) then raise (protocol cursor_expired) else answer

check_retained-unless :
    (p hi : ℕ) (es : List EventRecord) (answer : Result (List EventRecord × Option Text))
    → Sorted 0 hi es
    → (check_retained p (first_cursor es) >> answer) ≡ unless_expired p answer es
unfolding check_retained
check_retained-unless p hi [] answer h = refl
check_retained-unless p hi (r ∷ es) answer (o, e, l, h) = rw e (ground arith)

module _ (topic : Text) (logs : EventStore) (log : TopicLog) (found : get topic logs ≡ some log)
    (valid : IsValidLog topic log) (to_cursor : Option Text) (to : Option ℕ)
    (ends : to_offset topic to_cursor ≡ ok to) (n now now' : ℕ) where
  -- A read with no start, on a valid log, returns the first `n + 1` live events up to the end,
  -- in log order, and the cursor of the last of them exactly if more events are in range.
  pub read_all :
      read topic none to_cursor (suc n) now now' logs ≡ page_of n (range 0 to (live_events now log))
  unfolding read
  read_all =
      rw (found, read)
        (read_from-page topic 0 n log.next_offset (live_events now log) to_cursor to
          (live_events-Sorted topic log valid now) ends)

  -- A read after a cursor of the topic, on a valid log, is refused as expired if the oldest live
  -- event lies past the cursor; otherwise it returns the first `n + 1` live events after the
  -- cursor and up to the end, and the cursor of the last of them exactly if more are in range.
  pub read_after :
      (cursor : Text) (p : ℕ)
      → offset_for topic cursor ≡ ok p
      → read topic (some cursor) to_cursor (suc n) now now' logs
        ≡ unless_expired p
            (page_of n (range (p + 1) to (live_events now log)))
            (live_events now' log)
  unfolding read
  read_after cursor p e =
      rw (found, read)
        (rw (not-earliest topic cursor p e, not-latest topic cursor p e, e)
          (rw
            (read_from-page topic (p + 1) n log.next_offset (live_events now log) to_cursor to
              (live_events-Sorted topic log valid now) ends)
            (check_retained-unless p log.next_offset (live_events now' log) _
              (live_events-Sorted topic log valid now'))))
