-- ===== src/EventStore/Log.antt =====
-- When the log of a topic is valid.
use a2a_events_python.Common.{
  ℕ, zero, suc, take, ◌+◌, ◌≤◌, ◌<◌, ◌≡◌, ◌≢◌, refl, Bool, List, [], ◌∷◌, ◌++◌, arith, filter_by,
  All, All-snoc, All-filter_by, Bool-cases, inl, inr, leb, Text,
}
use a2a_events_python.Errors.{ok}
use a2a_events_python.Cursor.{encode, offset_of}
use a2a_events_python.Cursor.Decimal.{max_offset}
use a2a_events_python.Cursor.RoundTrip.{offset_of-encode}
use a2a_events_python.EventStore.{
  EventRecord, TopicLog, NewEvent, record_of, append_to, compact_log, live_events,
}

-- The offsets rise from `lo` and stay below `hi`.
abbrev pub Ordered : Text → ℕ → ℕ → List EventRecord → Type 0
Ordered topic lo hi [] = lo ≤ hi
Ordered topic lo hi (r ∷ rs) =
    (o : ℕ) × (r.cursor ≡ encode topic o) × (lo ≤ o) × Ordered topic (suc o) hi rs

-- The same, of what the cursors decode to.
abbrev pub Sorted : ℕ → ℕ → List EventRecord → Type 0
Sorted lo hi [] = lo ≤ hi
Sorted lo hi (r ∷ rs) = (o : ℕ) × (offset_of r.cursor ≡ ok o) × (lo ≤ o) × Sorted (suc o) hi rs

pub record IsValidLog (topic : Text) (log : TopicLog) : Type 0 where
  pub named : topic ≢ []
  pub ordered : Ordered topic 0 log.next_offset log.events
  pub bounded : log.next_offset ≤ max_offset
  pub own : All (λ r. r.topic ≡ topic) log.events

pub Ordered-le : (t : Text) (lo hi : ℕ) (es : List EventRecord) → Ordered t lo hi es → lo ≤ hi
Ordered-le t lo hi [] h = h
Ordered-le t lo hi (r ∷ rs) (o, e, l, h) = omega (arith, Ordered-le t (suc o) hi rs h)

pub Sorted-le : (lo hi : ℕ) (es : List EventRecord) → Sorted lo hi es → lo ≤ hi
Sorted-le lo hi [] h = h
Sorted-le lo hi (r ∷ rs) (o, e, l, h) = omega (arith, Sorted-le (suc o) hi rs h)

Ordered-lower :
    (t : Text) (lo lo' hi : ℕ) (es : List EventRecord)
    → lo' ≤ lo
    → Ordered t lo hi es
    → Ordered t lo' hi es
Ordered-lower t lo lo' hi [] k h = omega arith
Ordered-lower t lo lo' hi (r ∷ rs) k (o, e, l, h) = (o, e, omega arith, h)

pub Ordered-filter :
    (t : Text) (lo hi : ℕ) (p : EventRecord → Bool) (es : List EventRecord)
    → Ordered t lo hi es
    → Ordered t lo hi (filter_by p es)
Ordered-filter t lo hi p [] h = h
Ordered-filter t lo hi p (r ∷ rs) (o, e, l, h) = elim (Bool-cases (p r)) [
  | inl keep ↦ rw keep (o, e, l, Ordered-filter t (suc o) hi p rs h)
  | inr skip ↦
      rw skip (Ordered-filter t lo hi p rs (Ordered-lower t (suc o) lo hi rs (omega arith) h))
]

Ordered-snoc :
    (t : Text) (lo hi : ℕ) (es : List EventRecord) (r : EventRecord)
    → r.cursor ≡ encode t hi
    → Ordered t lo hi es
    → Ordered t lo (hi + 1) (es ++ r ∷ [])
Ordered-snoc t lo hi [] r c h = (hi, c, h, omega arith)
Ordered-snoc t lo hi (x ∷ es) r c (o, e, l, h) = (o, e, l, Ordered-snoc t (suc o) hi es r c h)

pub Sorted-lower :
    (lo lo' hi : ℕ) (es : List EventRecord) → lo' ≤ lo → Sorted lo hi es → Sorted lo' hi es
Sorted-lower lo lo' hi [] k h = omega arith
Sorted-lower lo lo' hi (r ∷ rs) k (o, e, l, h) = (o, e, omega arith, h)

pub Sorted-filter :
    (lo hi : ℕ) (p : EventRecord → Bool) (es : List EventRecord)
    → Sorted lo hi es
    → Sorted lo hi (filter_by p es)
Sorted-filter lo hi p [] h = h
Sorted-filter lo hi p (r ∷ rs) (o, e, l, h) = elim (Bool-cases (p r)) [
  | inl keep ↦ rw keep (o, e, l, Sorted-filter (suc o) hi p rs h)
  | inr skip ↦ rw skip (Sorted-filter lo hi p rs (Sorted-lower (suc o) lo hi rs (omega arith) h))
]

pub Sorted-append_left :
    (lo hi : ℕ) (xs ys : List EventRecord) → Sorted lo hi (xs ++ ys) → Sorted lo hi xs
Sorted-append_left lo hi [] ys h = Sorted-le lo hi ys h
Sorted-append_left lo hi (r ∷ xs) ys (o, e, l, h) = (o, e, l, Sorted-append_left (suc o) hi xs ys h)

-- What stands before an event lies below its offset.
pub Sorted-before :
    (lo hi o : ℕ) (xs ys : List EventRecord) (event : EventRecord)
    → offset_of event.cursor ≡ ok o
    → Sorted lo hi (xs ++ event ∷ ys)
    → Sorted lo o xs × (o < hi)
Sorted-before lo hi o [] ys event at (p, d, l, h) =
    let same : p ≡ o = cc in (omega arith, omega (arith, Sorted-le (suc p) hi ys h))
Sorted-before lo hi o (r ∷ xs) ys event at (p, d, l, h) =
    let (before, below) = Sorted-before (suc p) hi o xs ys event at h in ((p, d, l, before), below)

pub Sorted-take : (n lo hi : ℕ) (es : List EventRecord) → Sorted lo hi es → Sorted lo hi (take n es)
Sorted-take zero lo hi es h = Sorted-le lo hi es h
Sorted-take (suc n) lo hi [] h = h
Sorted-take (suc n) lo hi (r ∷ rs) (o, e, l, h) = (o, e, l, Sorted-take n (suc o) hi rs h)

pub Ordered-Sorted :
    (t : Text) (lo hi : ℕ) (es : List EventRecord)
    → t ≢ []
    → hi ≤ max_offset
    → Ordered t lo hi es
    → Sorted lo hi es
Ordered-Sorted t lo hi [] named b h = h
Ordered-Sorted t lo hi (r ∷ rs) named b (o, e, l, h) =
    let below : suc o ≤ hi = Ordered-le t (suc o) hi rs h in
    (
      o,
      rw e (offset_of-encode t o named (omega arith)),
      l,
      Ordered-Sorted t (suc o) hi rs named b h,
    )

module _ (topic : Text) (log : TopicLog) (valid : IsValidLog topic log) where
  pub append_to-IsValidLog :
      (now : ℕ) (e : NewEvent)
      → log.next_offset < max_offset
      → IsValidLog topic (append_to topic now e log).1
  unfolding append_to record_of
  append_to-IsValidLog now e room = record {
    named = valid.named;
    ordered = Ordered-snoc topic 0 log.next_offset log.events _ refl valid.ordered;
    bounded = omega arith;
    own = All-snoc (λ r. r.topic ≡ topic) log.events _ valid.own refl;
  }

  pub compact_log-IsValidLog : (now : ℕ) → IsValidLog topic (compact_log now log).1
  unfolding compact_log
  compact_log-IsValidLog now = elim (Bool-cases (leb log.topic.retention_seconds 0)) [
    | inl forever ↦ rw forever valid
    | inr bounded ↦ rw bounded (record {
      named = valid.named;
      ordered = Ordered-filter topic 0 log.next_offset _ log.events valid.ordered;
      bounded = valid.bounded;
      own = All-filter_by (λ r. r.topic ≡ topic) _ log.events valid.own;
    })
  ]

  pub live_events-Ordered : (now : ℕ) → Ordered topic 0 log.next_offset (live_events now log)
  unfolding live_events
  live_events-Ordered now = elim (Bool-cases (leb log.topic.retention_seconds 0)) [
    | inl forever ↦ rw forever valid.ordered
    | inr bounded ↦ rw bounded (Ordered-filter topic 0 log.next_offset _ log.events valid.ordered)
  ]

  pub live_events-Sorted : (now : ℕ) → Sorted 0 log.next_offset (live_events now log)
  live_events-Sorted now =
      Ordered-Sorted topic 0 log.next_offset (live_events now log) valid.named valid.bounded
        (live_events-Ordered now)

  pub live_events-own : (now : ℕ) → All (λ r. r.topic ≡ topic) (live_events now log)
  unfolding live_events
  live_events-own now = elim (Bool-cases (leb log.topic.retention_seconds 0)) [
    | inl forever ↦ rw forever valid.own
    | inr bounded ↦ rw bounded (All-filter_by (λ r. r.topic ≡ topic) _ log.events valid.own)
  ]
