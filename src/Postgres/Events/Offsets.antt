-- ===== src/Postgres/Events/Offsets.antt =====
-- The offset and the cursor that an event gets in the Postgres event store.
use mathlib.Core.Path.{subst}
use a2a_events_python.Common.{
  ℕ, suc, ◌+◌, ◌≤◌, ◌<◌, ◌≡◌, ◌≢◌, refl, sym, ◌∙◌, ap, ◌||◌, Bool, true, false, some, List, [], ◌∷◌,
  arith, ltb, if◌then◌else◌, length, filter_by, any_by, All, Bool-cases, Option-cases, inl, inr,
  Text, text_eq, text_eq_iff, get,
}
use a2a_events_python.Errors.{Result, ok}
use a2a_events_python.Cursor.{encode, split}
use a2a_events_python.Cursor.Decimal.{max_offset}
use a2a_events_python.Cursor.RoundTrip.{split-encode}
use a2a_events_python.EventStore.{EventRecord, TopicLog, EventStore}
use a2a_events_python.EventStore.Log.{Ordered, IsValidLog}
use a2a_events_python.EventStore.Keeps.{IsValid}
use a2a_events_python.Postgres.{Outside}
use a2a_events_python.Postgres.Events.{
  TopicRow, Tables, find_row, rows_of, count, next_offset, set_next_offset,
}
use a2a_events_python.Postgres.Events.Ordering.{Ordered-All}
use a2a_events_python.Postgres.Events.Represents.{Represents}

-- An offset of a log is given out once, so a log is no longer than its count.
Ordered-length :
    (t : Text) (lo hi : ℕ) (es : List EventRecord) → Ordered t lo hi es → lo + length es ≤ hi
Ordered-length t lo hi [] h = omega arith
Ordered-length t lo hi (r ∷ rs) (o, e, l, h) = omega (arith, Ordered-length t (suc o) hi rs h)

pub find_row-set_self :
    (topic : Text) (next : ℕ) (rs : List TopicRow) (row : TopicRow)
    → find_row topic rs ≡ some row
    → find_row topic (set_next_offset topic next rs) ≡ some (record row { next_offset = next })
find_row-set_self topic next [] row h = absurd (cc)
find_row-set_self topic next (r ∷ rs) row h = elim (Bool-cases (text_eq r.topic topic)) [
  | inl same ↦
      let e : r ≡ row = ground (arith, h) in
      rw same (rw same (ap {A = TopicRow} (λ x. some (record x { next_offset = next })) e))
  | inr other ↦ rw other (rw other (find_row-set_self topic next rs row (ground (arith, h))))
]

pub find_row-set_other :
    (topic t : Text) (next : ℕ) (rs : List TopicRow)
    → text_eq topic t ≡ false
    → find_row t (set_next_offset topic next rs) ≡ find_row t rs
find_row-set_other topic t next [] h = refl
find_row-set_other topic t next (r ∷ rs) h = elim (Bool-cases (text_eq r.topic topic)) [
  | inl same ↦
      let e : text_eq r.topic t ≡ false = rw ((text_eq_iff r.topic topic).0 same) h in
      rw (same, e) (find_row-set_other topic t next rs h)
  | inr other ↦ rw (other, find_row-set_other topic t next rs h)
]

module _ {A : Type 0} where
  -- Where a test finds an element, what holds of all that pass another test holds of it if it does.
  any_by-found :
      (p : A → Bool) (xs : List A)
      → any_by p xs ≡ true
      → (x : A) × (p x ≡ true)
        × ((P : A → Type 0) (q : A → Bool) → q x ≡ true → All P (filter_by q xs) → P x)
  any_by-found p [] h = absurd (cc)
  any_by-found p (x ∷ xs) h = elim (Bool-cases (p x)) [
    | inl passes ↦ (x, passes, λ P q holds all. first P q x xs holds all)
    | inr fails ↦
        let (y, passes, use_all) = any_by-found p xs (ground (arith, h)) in
        (y, passes, λ P q holds all. use_all P q holds (rest P q x xs all))
  ]
    where
      first :
          (P : A → Type 0) (q : A → Bool) (x : A) (xs : List A)
          → q x ≡ true
          → All P (filter_by q (x ∷ xs))
          → P x
      first P q x xs holds all =
          (subst (λ b. All P (if b then x ∷ filter_by q xs else filter_by q xs)) holds all).0

      rest :
          (P : A → Type 0) (q : A → Bool) (x : A) (xs : List A)
          → All P (filter_by q (x ∷ xs))
          → All P (filter_by q xs)
      rest P q x xs all = pick (q x) all
        where
          pick :
              (b : Bool)
              → All P (if b then x ∷ filter_by q xs else filter_by q xs)
              → All P (filter_by q xs)
          pick true h = h.1
          pick false h = h

  pub any_by-or :
      (p q : A → Bool) (xs : List A) → any_by (λ x. p x || q x) xs ≡ (any_by p xs || any_by q xs)
  any_by-or p q [] = refl
  any_by-or p q (x ∷ xs) = ground (arith, any_by-or p q xs)

encode-injective :
    (t t' : Text) (n n' : ℕ)
    → t ≢ []
    → t' ≢ []
    → n < max_offset
    → n' < max_offset
    → encode t n ≡ encode t' n'
    → (t ≡ t') × (n ≡ n')
encode-injective t t' n n' named named' h h' e =
    let same : Path (Result (Text × ℕ)) (ok (t, n)) (ok (t', n')) =
      sym (split-encode t n named h) ∙ ap split e ∙ split-encode t' n' named' h' in
    (cc, cc)

next_offset-chain :
    (topic : Text) (db : Tables)
    → next_offset topic db ≡ (
        if ltb (count topic db) (length (rows_of topic db))
        then length (rows_of topic db)
        else count topic db)
unfolding next_offset
next_offset-chain topic db = refl

module _ (out : Outside) (db : Tables) (logs : EventStore) (represents : Represents out db logs)
    (valid : IsValid logs) (topic : Text) (log : TopicLog) (at : get topic logs ≡ some log)
    (room : log.next_offset < max_offset) where
  count-log : count topic db ≡ log.next_offset
  unfolding count
  count-log =
      let (row, found, loads, next, rows) = represents.declared topic log at in
      rw (count, found) next

  -- The count of the live rows never passes the stored counter.
  pub next_offset-log : next_offset topic db ≡ log.next_offset
  next_offset-log =
      let (row, found, loads, next, rows) = represents.declared topic log at in
      let v : IsValidLog topic log = valid.at topic log at in
      rw (next_offset-chain topic db, count-log, rows)
        (ground (arith, Ordered-length topic 0 log.next_offset log.events v.ordered))

  abbrev At : Text → ℕ → EventRecord → Type 0
  At t hi e = (o : ℕ) × (e.cursor ≡ encode t o) × (o < hi)

  -- A row of the table lies in the log of its topic.
  row-At :
      (x : EventRecord)
      → ((P : EventRecord → Type 0) (q : EventRecord → Bool)
          → q x ≡ true
          → All P (filter_by q db.events)
          → P x)
      → (other : TopicLog) × (get x.topic logs ≡ some other) × At x.topic other.next_offset x
  row-At x all = elim (Option-cases (get x.topic logs)) [
    | inl missing ↦
        let empty : rows_of x.topic db ≡ [] = (represents.undeclared x.topic missing).1 in
        let bad : true ≡ false =
          all (λ e. true ≡ false) (λ e. text_eq e.topic x.topic) own
            (subst (All (λ e. true ≡ false)) (sym empty) tt) in
        absurd (cc)
    | inr (other, there) ↦
        let (row, found, loads, next, rows) = represents.declared x.topic other there in
        let v : IsValidLog x.topic other = valid.at x.topic other there in
        (
          other,
          there,
          all (At x.topic other.next_offset) (λ e. text_eq e.topic x.topic) own
              (subst (All (At x.topic other.next_offset)) (sym rows) (
                Ordered-All x.topic 0 other.next_offset other.events (At x.topic other.next_offset)
                  (λ e o c l. (o, c, l)) v.ordered)),
        )
  ]
    where
      own : text_eq x.topic x.topic ≡ true
      own = (text_eq_iff x.topic x.topic).1 refl

  -- No row of any topic has the cursor that the next event gets.
  pub cursor-Fresh : any_by (λ e. text_eq e.cursor (encode topic log.next_offset)) db.events ≡ false
  cursor-Fresh =
      elim (Bool-cases (any_by (λ e. text_eq e.cursor (encode topic log.next_offset)) db.events)) [
        | inr fresh ↦ fresh
        | inl taken ↦
            let (x, same, all) = any_by-found _ db.events taken in
            let (other, there, (o, c, below)) = row-At x all in
            let v : IsValidLog x.topic other = valid.at x.topic other there in
            let w : IsValidLog topic log = valid.at topic log at in
            let (t, n) =
              encode-injective x.topic topic o log.next_offset v.named w.named
                (omega (arith, v.bounded)) room (sym c ∙ (text_eq_iff _ _).0 same) in
            let e : other ≡ log = cc in absurd (omega (arith, ap (λ l. l.next_offset) e))
      ]
