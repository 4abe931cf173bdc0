-- ===== src/Postgres/Events/Ordering.antt =====
-- The statements of the Postgres event store on the rows of a valid log: what their conditions
-- select is a range of the log, and their order is the order of the log.
use a2a_events_python.Common.{
  ℕ, zero, suc, ◌+◌, ◌≤◌, ◌<◌, ◌≡◌, ◌≢◌, refl, Bool, true, false, ◌&&◌, ◌||◌, Option, none, some,
  List, [], ◌∷◌, map, arith, ltb, leb, if◌then◌else◌, length, filter_by, take, last?, All, ◌⊎◌, inl,
  inr, Text,
}
use a2a_events_python.Errors.{ok}
use a2a_events_python.Cursor.{encode}
use a2a_events_python.Cursor.Decimal.{max_offset}
use a2a_events_python.Cursor.RoundTrip.{offset_of-encode}
use a2a_events_python.EventStore.{EventRecord, first_cursor, within}
use a2a_events_python.EventStore.Log.{Ordered, Ordered-le}
use a2a_events_python.EventStore.Range.{range, next_cursor}
use a2a_events_python.Postgres.{Outside, IsSound, insert_row, order_by, min_text, max_text}
use a2a_events_python.Postgres.Events.{after, up_to, page_rows}

module _ {ℓ} {A : Type ℓ} where
  pub filter_by-and :
      (p q : A → Bool) (xs : List A) → filter_by (λ x. p x && q x) xs ≡ filter_by q (filter_by p xs)
  filter_by-and p q [] = refl
  filter_by-and p q (x ∷ xs) = ground (arith, filter_by-and p q xs)

  pub filter_by-agree :
      (p q : A → Bool) (xs : List A) → All (λ x. p x ≡ q x) xs → filter_by p xs ≡ filter_by q xs
  filter_by-agree p q [] h = refl
  filter_by-agree p q (x ∷ xs) (h, hs) = rw (h, filter_by-agree p q xs hs)

  pub filter_by-swap :
      (p q : A → Bool) (xs : List A) → filter_by (λ x. p x && q x) xs ≡ filter_by p (filter_by q xs)
  filter_by-swap p q [] = refl
  filter_by-swap p q (x ∷ xs) = ground (arith, filter_by-swap p q xs)

  pub filter_by-or :
      (b : Bool) (p : A → Bool) (xs : List A)
      → filter_by (λ x. b || p x) xs ≡ (if b then xs else filter_by p xs)
  filter_by-or true p [] = refl
  filter_by-or true p (x ∷ xs) = rw (filter_by-or true p xs)
  filter_by-or false p xs = refl

pub Ordered-All :
    (t : Text) (lo hi : ℕ) (es : List EventRecord) (P : EventRecord → Type 0)
    → ((e : EventRecord) (o : ℕ) → e.cursor ≡ encode t o → o < hi → P e)
    → Ordered t lo hi es
    → All P es
Ordered-All t lo hi [] P step h = tt
Ordered-All t lo hi (r ∷ rs) P step (o, e, l, h) =
    (step r o e (Ordered-le t (suc o) hi rs h), Ordered-All t (suc o) hi rs P step h)

-- the offset after which a read begins, and the cursors of the two ends
abbrev pub start_at : Option ℕ → ℕ
start_at none = 0
start_at (some p) = p + 1

abbrev pub cursor_at : Text → Option ℕ → Option Text
cursor_at t none = none
cursor_at t (some p) = some (encode t p)

abbrev pub Fits : Option ℕ → Type 0
Fits none = Unit
Fits (some p) = p < max_offset

module _ (out : Outside) (sound : IsSound out) (t : Text) (named : t ≢ []) where
  after-encode :
      (from : Option ℕ) (e : EventRecord) (o : ℕ)
      → Fits from
      → e.cursor ≡ encode t o
      → o < max_offset
      → after out (cursor_at t from) e ≡ leb (start_at from) o
  after-encode none e o f c b = ground arith
  after-encode (some p) e o f c b = rw (c, sound.orders t p o f b) (ground arith)

  up_to-encode :
      (to : Option ℕ) (e : EventRecord) (o : ℕ)
      → Fits to
      → e.cursor ≡ encode t o
      → o < max_offset
      → up_to out (cursor_at t to) e ≡ within to o
  unfolding within
  up_to-encode none e o f c b = refl
  up_to-encode (some q) e o f c b = rw (c, sound.orders t q o f b) (ground arith)

  -- The two conditions on the cursor select a range.
  pub select-range :
      (from to : Option ℕ) (lo hi : ℕ) (es : List EventRecord)
      → Fits from
      → Fits to
      → hi ≤ max_offset
      → Ordered t lo hi es
      → filter_by (λ e. after out (cursor_at t from) e && up_to out (cursor_at t to) e) es
        ≡ range (start_at from) to es
  select-range from to lo hi es f g b h = filter_by-agree _ _ es (
      Ordered-All t lo hi es _
        (λ e o c l.
          let k : o < max_offset = omega arith in
          rw (after-encode from e o f c k, up_to-encode to e o g c k)
            (rw (c, offset_of-encode t o named k)))
        h)

  insert_row-Ordered :
      (lo hi : ℕ) (r : EventRecord) (rs : List EventRecord)
      → hi ≤ max_offset
      → Ordered t lo hi (r ∷ rs)
      → insert_row (λ e e'. out.before e.cursor e'.cursor) r rs ≡ r ∷ rs
  insert_row-Ordered lo hi r [] b h = refl
  insert_row-Ordered lo hi r (s ∷ rs) b (o, e, l, (p, d, k, h)) =
      let below : suc p ≤ hi = Ordered-le t (suc p) hi rs h in
      rw (e, d, sound.orders t p o (omega arith) (omega arith)) (ground arith)

  -- ORDER BY cursor leaves the rows of a valid log as they are.
  pub order_by-Ordered :
      (lo hi : ℕ) (es : List EventRecord)
      → hi ≤ max_offset
      → Ordered t lo hi es
      → order_by (λ e e'. out.before e.cursor e'.cursor) es ≡ es
  order_by-Ordered lo hi [] b h = refl
  order_by-Ordered lo hi (r ∷ rs) b (o, e, l, h) =
      rw (order_by-Ordered (suc o) hi rs b h) (insert_row-Ordered lo hi r rs b (o, e, l, h))

  pub min_text-first :
      (lo hi : ℕ) (es : List EventRecord)
      → hi ≤ max_offset
      → Ordered t lo hi es
      → min_text out.before (map (λ e. e.cursor) es) ≡ first_cursor es
  min_text-first lo hi [] b h = refl
  min_text-first lo hi (r ∷ []) b h = refl
  min_text-first lo hi (r ∷ s ∷ rs) b (o, e, l, (p, d, k, h)) =
      let below : suc p ≤ hi = Ordered-le t (suc p) hi rs h in
      rw
        (
          min_text-first (suc o) hi (s ∷ rs) b (p, d, k, h),
          e,
          d,
          sound.orders t p o (omega arith) (omega arith),
        )
        (ground arith)

  -- The greatest cursor is the last one, at an offset that no event of the list is below.
  pub max_text-last :
      (lo hi : ℕ) (r : EventRecord) (rs : List EventRecord)
      → hi ≤ max_offset
      → Ordered t lo hi (r ∷ rs)
      → (m : EventRecord) × (o : ℕ) × (last? (r ∷ rs) ≡ some m)
        × (m.cursor ≡ encode t o)
        × (lo ≤ o)
        × (o < hi)
        × (max_text out.before (map (λ e. e.cursor) (r ∷ rs)) ≡ some m.cursor)
  max_text-last lo hi r [] b (o, e, l, h) = (r, o, refl, e, l, h, refl)
  max_text-last lo hi r (s ∷ rs) b (o, e, l, h) =
      let (m, p, last, at, k, below, greatest) = max_text-last (suc o) hi s rs b h in
      (
        m,
        p,
        last,
        at,
        omega arith,
        below,
        rw (greatest, e, at, sound.orders t o p (omega arith) (omega arith)) (ground arith),
      )

take-take : {A : Type 0} (n : ℕ) (xs : List A) → take n (take (suc n) xs) ≡ take n xs
take-take zero xs = refl
take-take (suc n) [] = refl
take-take (suc n) (x ∷ xs) = rw (take-take n xs)

-- One row over the limit is there exactly if a page has a next cursor, that of its last event.
over_limit :
    (n : ℕ) (rs : List EventRecord)
    → ((ltb (suc n) (length (take (suc (suc n)) rs)) ≡ false) × (next_cursor (suc n) rs ≡ none))
      ⊎ ((m : EventRecord) × (ltb (suc n) (length (take (suc (suc n)) rs)) ≡ true)
          × (last? (take (suc n) rs) ≡ some m)
          × (next_cursor (suc n) rs ≡ some m.cursor))
unfolding next_cursor
over_limit n [] = inl (ground arith, refl)
over_limit zero (r ∷ []) = inl (ground arith, refl)
over_limit zero (r ∷ s ∷ rs) = inr (r, ground arith, refl, refl)
over_limit (suc n) (r ∷ []) = inl (ground arith, refl)
over_limit (suc n) (r ∷ s ∷ rs) = elim (over_limit n (s ∷ rs)) [
  | inl (short, none_left) ↦ inl (ground arith, none_left)
  | inr (m, long, last, next) ↦ inr (m, ground arith, last, next)
]

pub page_rows-next :
    (n : ℕ) (rs : List EventRecord)
    → page_rows (suc n) (take (suc (suc n)) rs) ≡ ok (take (suc n) rs, next_cursor (suc n) rs)
unfolding page_rows
page_rows-next n rs = elim (over_limit n rs) [
  | inl (short, none_left) ↦ rw (take-take (suc n) rs, short, none_left, page_rows)
  | inr (m, long, last, next) ↦
      rw (take-take (suc n) rs, long, last, next, page_rows) (rw (take-take (suc n) rs))
]
