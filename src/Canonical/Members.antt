-- ===== src/Canonical/Members.antt =====
-- The order of an object's members and its canonical text.
use a2a_events_python.Common.{
  ◌≡◌, ◌≢◌, refl, arith, true, false, not, List, [], ◌∷◌, ◌==◌, Bool-cases, inl, inr, Text,
}
use a2a_events_python.Cursor.{text_lt}
use a2a_events_python.Canonical.{Member, utf16, insert_member}

text_lt-flip : (a b : Text) → a ≢ b → text_lt a b ≡ not (text_lt b a)
unfolding text_lt
text_lt-flip [] [] h = absurd (h refl)
text_lt-flip [] (d ∷ ds) h = refl
text_lt-flip (c ∷ cs) [] h = refl
text_lt-flip (c ∷ cs) (d ∷ ds) h = elim (Bool-cases (c == d)) [
  | inl same ↦
      let e : c ≡ d = ground arith in
      let rest = text_lt-flip cs ds (λ t. h (ground arith)) in ground (arith, rest)
  | inr other ↦ ground arith
]

-- what is not past `b` stands before what comes after `b`
text_lt-le : (a b c : Text) → text_lt b a ≡ false → text_lt b c ≡ true → text_lt a c ≡ true
unfolding text_lt
text_lt-le a [] [] h k = absurd (cc)
text_lt-le a (y ∷ ys) [] h k = absurd (cc)
text_lt-le [] b (z ∷ zs) h k = refl
text_lt-le (x ∷ xs) [] (z ∷ zs) h k = absurd (cc)
text_lt-le (x ∷ xs) (y ∷ ys) (z ∷ zs) h k = ground (arith, text_lt-le xs ys zs)

-- Two members with keys of different code units go in either order.
pub insert_member_comm :
    (a b : Member) (ms : List Member)
    → utf16 a.0 ≢ utf16 b.0
    → insert_member a (insert_member b ms) ≡ insert_member b (insert_member a ms)
unfolding insert_member
insert_member_comm a b [] h = ground (arith, text_lt-flip (utf16 a.0) (utf16 b.0) h)
insert_member_comm a b (m ∷ ms) h = ground (
  arith,
  text_lt-flip (utf16 a.0) (utf16 b.0) h,
  text_lt-le (utf16 a.0) (utf16 m.0) (utf16 b.0),
  text_lt-le (utf16 b.0) (utf16 m.0) (utf16 a.0),
  insert_member_comm a b ms h,
)
