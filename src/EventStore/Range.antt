-- ===== src/EventStore/Range.antt =====
-- What a read of the store collects.
use a2a_events_python.Common.{
  ℕ, zero, suc, ◌+◌, ◌≤◌, ◌<◌, ◌≡◌, refl, ◌∙◌, Bool, true, false, not, ◌&&◌, Option, none, some,
  List, [], ◌∷◌, ◌++◌, append-nil, append_assoc, arith, ltb, leb, filter_by, any_by, if◌then◌else◌,
  Bool-cases, inl, inr, Text, length, length-append, take, le→leb,
}
use a2a_events_python.Errors.{Result, ok, raise}
use a2a_events_python.Cursor.{offset_of}
use a2a_events_python.EventStore.{EventRecord, within, has_more, collect}
use a2a_events_python.EventStore.Log.{Sorted}

-- the offset that a cursor decodes to
abbrev pub offset_in : Result ℕ → ℕ
offset_in (ok o) = o
offset_in (raise _) = 0

abbrev pub offset : EventRecord → ℕ
offset r = offset_in (offset_of r.cursor)

abbrev pub in_range : ℕ → Option ℕ → EventRecord → Bool
in_range start to r = leb start (offset r) && within to (offset r)

-- The events of a log at offsets from `start`, up to and with `to`.
abbrev pub range : ℕ → Option ℕ → List EventRecord → List EventRecord
range start to = filter_by (in_range start to)

-- A page of `limit` events of a range (one, for a limit of 0).
unfoldable pub page : ℕ → List EventRecord → List EventRecord
page zero rs = take 1 rs
page (suc n) rs = take (suc n) rs

abbrev cursor_at : List EventRecord → Option Text
cursor_at [] = none
cursor_at (r ∷ _) = some r.cursor

abbrev pub beyond : ℕ → Option ℕ → EventRecord → Bool
beyond o to r = ltb o (offset r) && within to (offset r)

has_more-any :
    (lo hi o : ℕ) (to : Option ℕ) (es : List EventRecord)
    → Sorted lo hi es
    → has_more o to es ≡ ok (any_by (beyond o to) es)
unfolding has_more
has_more-any lo hi o to [] h = refl
has_more-any lo hi o to (r ∷ es) (x, e, l, h) =
    rw (e, has_more-any (suc x) hi o to es h) (ground arith)

-- Past an upper end nothing of a sorted list is in range.
range-past :
    (lo hi start last : ℕ) (es : List EventRecord)
    → Sorted lo hi es
    → last < lo
    → range start (some last) es ≡ []
unfolding within
range-past lo hi start last [] h k = refl
range-past lo hi start last (r ∷ es) (o, e, l, h) k =
    rw (e, range-past (suc o) hi start last es h (omega arith)) (ground arith)

abbrev is_nil {ℓ} : {A : Type ℓ} → List A → Bool
is_nil [] = true
is_nil (x ∷ xs) = false

-- What is left beyond an event in range is what of the range follows it.
any_by-range :
    (lo hi o start : ℕ) (to : Option ℕ) (es : List EventRecord)
    → Sorted lo hi es
    → o < lo
    → start ≤ lo
    → any_by (beyond o to) es ≡ not (is_nil (range start to es))
any_by-range lo hi o start to [] h k m = refl
any_by-range lo hi o start to (r ∷ es) (x, e, l, h) k m =
    rw (e, any_by-range (suc x) hi o start to es h (omega arith) (omega arith)) (ground arith)

-- The cursor of the last event of a page, if the range goes on after it.
unfoldable pub next_cursor : ℕ → List EventRecord → Option Text
next_cursor zero rs = none
next_cursor (suc n) [] = none
next_cursor (suc zero) (r ∷ rs) = if is_nil rs then none else some r.cursor
next_cursor (suc (suc n)) (r ∷ rs) = next_cursor (suc n) rs

module _ (start : ℕ) (to : Option ℕ) (r : EventRecord) (rest : List EventRecord) (o : ℕ) where
  range-skip :
      offset_of r.cursor ≡ ok o
      → ltb o start ≡ true
      → range start to (r ∷ rest) ≡ range start to rest
  range-skip e h = rw e (ground arith)

  range-take :
      offset_of r.cursor ≡ ok o
      → ltb o start ≡ false
      → within to o ≡ true
      → range start to (r ∷ rest) ≡ r ∷ range start to rest
  range-take e h k = rw (e, k) (ground arith)

-- Where an event lies past the end, the rest of the range is empty.
range-stop :
    (lo hi start o : ℕ) (to : Option ℕ) (r : EventRecord) (rest : List EventRecord)
    → Sorted lo hi (r ∷ rest)
    → offset_of r.cursor ≡ ok o
    → within to o ≡ false
    → range start to (r ∷ rest) ≡ []
unfolding within
range-stop lo hi start o none r rest h e k = cc
range-stop lo hi start o (some last) r rest (x, e', l, h) e k =
    range-past o hi start last (r ∷ rest) (ground arith) (ground arith)

module _ (live : List EventRecord) (hi start : ℕ) (to : Option ℕ) (sorted : Sorted 0 hi live) where
  abbrev pub Answer : Type 0
  Answer = Result (List EventRecord × Option Text)

  abbrev pub expected : List EventRecord → ℕ → List EventRecord → Answer
  expected out room rs = ok (out ++ take (suc room) rs, next_cursor (suc room) rs)

  -- `rest` is what is left of `live`, and holds all of it that lies beyond what went before.
  abbrev pub Remains : ℕ → List EventRecord → Type 0
  Remains lo rest = (o : ℕ) → lo ≤ suc o → any_by (beyond o to) live ≡ any_by (beyond o to) rest

  Remains-step :
      (lo o : ℕ) (r : EventRecord) (rest : List EventRecord)
      → offset_of r.cursor ≡ ok o
      → lo ≤ o
      → Remains lo (r ∷ rest)
      → Remains (suc o) rest
  Remains-step lo o r rest e l m x k = m x (omega arith) ∙ rw e (ground arith)

  -- one event in range: it ends the page, or the loop goes on
  collect_taken :
      (room limit o : ℕ) (out : List EventRecord) (r : EventRecord) (rest : List EventRecord)
      → offset_of r.cursor ≡ ok o
      → ltb o start ≡ false
      → within to o ≡ true
      → Sorted (suc o) hi rest
      → Remains (suc o) rest
      → limit ≡ length out + suc room
      → ((n : ℕ)
          → limit ≡ length (out ++ r ∷ []) + suc n
          → collect live start to limit (out ++ r ∷ []) rest
            ≡ expected (out ++ r ∷ []) n (range start to rest))
      → collect live start to limit out (r ∷ rest) ≡ expected out room (r ∷ range start to rest)
  unfolding collect next_cursor
  collect_taken zero limit o out r rest e after inside h m k ih =
      rw (e, after, inside, le→leb limit (length out + 1) (omega arith))
        (rw
          (
            has_more-any 0 hi o to live sorted,
            m o (omega arith),
            any_by-range (suc o) hi o start to rest h (omega arith) (ground arith),
          )
          (ground arith))
  collect_taken (suc n) limit o out r rest e after inside h m k ih =
      let full : leb limit (length out + 1) ≡ false = ground arith in
      rw (e, after, inside, full, ih n (omega (arith, length-append out (r ∷ []))), append_assoc)

  pub collect-expected :
      (lo room limit : ℕ) (out rest : List EventRecord)
      → Sorted lo hi rest
      → Remains lo rest
      → limit ≡ length out + suc room
      → collect live start to limit out rest ≡ expected out room (range start to rest)
  unfolding collect next_cursor
  collect-expected lo room limit out [] h m k = rw append-nil
  collect-expected lo room limit out (r ∷ rest) (o, e, l, h) m k = elim (Bool-cases (ltb o start)) [
    | inl before ↦
        rw (range-skip start to r rest o e before, e, before)
          (collect-expected (suc o) room limit out rest h m' k)
    | inr after ↦ elim (Bool-cases (within to o)) [
      | inl inside ↦ rw (range-take start to r rest o e after inside) (
          collect_taken room limit o out r rest e after inside h m' k
            (λ n k'. collect-expected (suc o) n limit (out ++ r ∷ []) rest h m' k'))
      | inr outside ↦
          rw (
            range-stop lo hi start o to r rest (o, e, l, h) e outside,
            e,
            after,
            outside,
            append-nil,
          )
    ]
  ]
    where
      m' : Remains (suc o) rest
      m' = Remains-step lo o r rest e l m
