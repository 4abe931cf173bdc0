-- ===== src/Selectors/Equality.antt =====
-- When two values are equal as field filters compare them.
use a2a_events_python.Common.{
  ℕ, ◌*◌, ◌^◌, ◌≡◌, refl, ◌↔◌, arith, true, false, text_eq_iff, ℤ, pos_part, neg_part,
}
use a2a_events_python.Json.{
  Json, null, bool, int, float, str, arr, obj, number, number_eq, scalar_eq,
}
use a2a_events_python.Selectors.{typed_eq}

-- m / 2 ^ j and n / 2 ^ k are one number
abbrev pub SameNumber : ℤ × ℕ → ℤ × ℕ → Type 0
SameNumber (m, j) (n, k) =
    (pos_part m * 2 ^ k ≡ pos_part n * 2 ^ j) × (neg_part m * 2 ^ k ≡ neg_part n * 2 ^ j)

-- Equal values of one kind: an int and a float are both numbers, a bool is none.
abbrev pub Same : Json → Json → Type 0
Same null null = Unit
Same (bool a) (bool b) = a ≡ b
Same (str s) (str t) = s ≡ t
Same (int m) (int n) = SameNumber (m, 0) (n, 0)
Same (int m) (float n k) = SameNumber (m, 0) (n, k)
Same (float m j) (int n) = SameNumber (m, j) (n, 0)
Same (float m j) (float n k) = SameNumber (m, j) (n, k)
Same _ _ = ⊥

number_eq_iff : (x y : ℤ × ℕ) → (number_eq x y ≡ true) ↔ SameNumber x y
unfolding number_eq
number_eq_iff (m, j) (n, k) = ((λ h. (ground arith, ground arith)), (λ (a, b). ground arith))

typed_eq-Same : (v w : Json) → typed_eq v w ≡ true → Same v w
unfolding typed_eq scalar_eq number
typed_eq-Same null null h = tt
typed_eq-Same null (bool n) h = absurd (cc)
typed_eq-Same null (int n) h = absurd (cc)
typed_eq-Same null (float n k) h = absurd (cc)
typed_eq-Same null (str n) h = absurd (cc)
typed_eq-Same null (arr n) h = absurd (cc)
typed_eq-Same null (obj n) h = absurd (cc)
typed_eq-Same (bool m) null h = absurd (cc)
typed_eq-Same (bool true) (bool true) h = refl
typed_eq-Same (bool true) (bool false) h = absurd (cc)
typed_eq-Same (bool false) (bool true) h = absurd (cc)
typed_eq-Same (bool false) (bool false) h = refl
typed_eq-Same (bool m) (int n) h = absurd (cc)
typed_eq-Same (bool m) (float n k) h = absurd (cc)
typed_eq-Same (bool m) (str n) h = absurd (cc)
typed_eq-Same (bool m) (arr n) h = absurd (cc)
typed_eq-Same (bool m) (obj n) h = absurd (cc)
typed_eq-Same (int m) null h = absurd (cc)
typed_eq-Same (int m) (bool n) h = absurd (cc)
typed_eq-Same (int m) (int n) h = (number_eq_iff (m, 0) (n, 0)).0 h
typed_eq-Same (int m) (float n k) h = (number_eq_iff (m, 0) (n, k)).0 h
typed_eq-Same (int m) (str n) h = absurd (cc)
typed_eq-Same (int m) (arr n) h = absurd (cc)
typed_eq-Same (int m) (obj n) h = absurd (cc)
typed_eq-Same (float m j) null h = absurd (cc)
typed_eq-Same (float m j) (bool n) h = absurd (cc)
typed_eq-Same (float m j) (int n) h = (number_eq_iff (m, j) (n, 0)).0 h
typed_eq-Same (float m j) (float n k) h = (number_eq_iff (m, j) (n, k)).0 h
typed_eq-Same (float m j) (str n) h = absurd (cc)
typed_eq-Same (float m j) (arr n) h = absurd (cc)
typed_eq-Same (float m j) (obj n) h = absurd (cc)
typed_eq-Same (str m) null h = absurd (cc)
typed_eq-Same (str m) (bool n) h = absurd (cc)
typed_eq-Same (str m) (int n) h = absurd (cc)
typed_eq-Same (str m) (float n k) h = absurd (cc)
typed_eq-Same (str m) (str n) h = (text_eq_iff m n).0 h
typed_eq-Same (str m) (arr n) h = absurd (cc)
typed_eq-Same (str m) (obj n) h = absurd (cc)
typed_eq-Same (arr m) null h = absurd (cc)
typed_eq-Same (arr m) (bool n) h = absurd (cc)
typed_eq-Same (arr m) (int n) h = absurd (cc)
typed_eq-Same (arr m) (float n k) h = absurd (cc)
typed_eq-Same (arr m) (str n) h = absurd (cc)
typed_eq-Same (arr m) (arr n) h = absurd (cc)
typed_eq-Same (arr m) (obj n) h = absurd (cc)
typed_eq-Same (obj m) null h = absurd (cc)
typed_eq-Same (obj m) (bool n) h = absurd (cc)
typed_eq-Same (obj m) (int n) h = absurd (cc)
typed_eq-Same (obj m) (float n k) h = absurd (cc)
typed_eq-Same (obj m) (str n) h = absurd (cc)
typed_eq-Same (obj m) (arr n) h = absurd (cc)
typed_eq-Same (obj m) (obj n) h = absurd (cc)

Same-typed_eq : (v w : Json) → Same v w → typed_eq v w ≡ true
unfolding typed_eq scalar_eq number
Same-typed_eq null null h = refl
Same-typed_eq null (bool n) h = absurd h
Same-typed_eq null (int n) h = absurd h
Same-typed_eq null (float n k) h = absurd h
Same-typed_eq null (str n) h = absurd h
Same-typed_eq null (arr n) h = absurd h
Same-typed_eq null (obj n) h = absurd h
Same-typed_eq (bool m) null h = absurd h
Same-typed_eq (bool true) (bool true) h = refl
Same-typed_eq (bool false) (bool false) h = refl
Same-typed_eq (bool true) (bool false) h = absurd (cc)
Same-typed_eq (bool false) (bool true) h = absurd (cc)
Same-typed_eq (bool m) (int n) h = absurd h
Same-typed_eq (bool m) (float n k) h = absurd h
Same-typed_eq (bool m) (str n) h = absurd h
Same-typed_eq (bool m) (arr n) h = absurd h
Same-typed_eq (bool m) (obj n) h = absurd h
Same-typed_eq (int m) null h = absurd h
Same-typed_eq (int m) (bool n) h = absurd h
Same-typed_eq (int m) (int n) h = (number_eq_iff (m, 0) (n, 0)).1 h
Same-typed_eq (int m) (float n k) h = (number_eq_iff (m, 0) (n, k)).1 h
Same-typed_eq (int m) (str n) h = absurd h
Same-typed_eq (int m) (arr n) h = absurd h
Same-typed_eq (int m) (obj n) h = absurd h
Same-typed_eq (float m j) null h = absurd h
Same-typed_eq (float m j) (bool n) h = absurd h
Same-typed_eq (float m j) (int n) h = (number_eq_iff (m, j) (n, 0)).1 h
Same-typed_eq (float m j) (float n k) h = (number_eq_iff (m, j) (n, k)).1 h
Same-typed_eq (float m j) (str n) h = absurd h
Same-typed_eq (float m j) (arr n) h = absurd h
Same-typed_eq (float m j) (obj n) h = absurd h
Same-typed_eq (str m) null h = absurd h
Same-typed_eq (str m) (bool n) h = absurd h
Same-typed_eq (str m) (int n) h = absurd h
Same-typed_eq (str m) (float n k) h = absurd h
Same-typed_eq (str m) (str n) h = (text_eq_iff m n).1 h
Same-typed_eq (str m) (arr n) h = absurd h
Same-typed_eq (str m) (obj n) h = absurd h
Same-typed_eq (arr m) null h = absurd h
Same-typed_eq (arr m) (bool n) h = absurd h
Same-typed_eq (arr m) (int n) h = absurd h
Same-typed_eq (arr m) (float n k) h = absurd h
Same-typed_eq (arr m) (str n) h = absurd h
Same-typed_eq (arr m) (arr n) h = absurd h
Same-typed_eq (arr m) (obj n) h = absurd h
Same-typed_eq (obj m) null h = absurd h
Same-typed_eq (obj m) (bool n) h = absurd h
Same-typed_eq (obj m) (int n) h = absurd h
Same-typed_eq (obj m) (float n k) h = absurd h
Same-typed_eq (obj m) (str n) h = absurd h
Same-typed_eq (obj m) (arr n) h = absurd h
Same-typed_eq (obj m) (obj n) h = absurd h

pub typed_eq_iff : (v w : Json) → (typed_eq v w ≡ true) ↔ Same v w
typed_eq_iff v w = (typed_eq-Same v w, Same-typed_eq v w)
