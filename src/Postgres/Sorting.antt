-- ===== src/Postgres/Sorting.antt =====
-- ORDER BY one column over rows in any order: the rows of a query come as the database scans them,
-- and rows of one value of the column stay in whatever order that is.
use mathlib.Core.Path.{subst}
use mathlib.Core.List.{Permᴰ}
use mathlib.Core.List.Permᴰ
use a2a_events_python.Common.{
  ℕ, zero, suc, ◌≤◌, ◌≡◌, ◌≢◌, refl, sym, ◌∙◌, ap, arith, Bool, ltb, List, [], ◌∷◌, length, take,
  any_by, filter_by, All, All-filter_by, Bool-cases, inl, inr,
}
use a2a_events_python.Postgres.{insert_row, order_by}

module _ {A : Type 0} where
  -- the order in which rows are read: some permutation of them
  abbrev pub IsScan : (List A → List A) → Type 0
  IsScan scan = (xs : List A) → Permᴰ (scan xs) xs

  pub any_by-Perm : (p : A → Bool) {xs ys : List A} → Permᴰ xs ys → any_by p xs ≡ any_by p ys
  any_by-Perm p Permᴰ.nil = refl
  any_by-Perm p (Permᴰ.cons e h) = rw (e, any_by-Perm p h)
  any_by-Perm p (Permᴰ.swap e f) = rw (e, f) (ground arith)
  any_by-Perm p (Permᴰ.trans h k) = any_by-Perm p h ∙ any_by-Perm p k

  length-Perm : {xs ys : List A} → Permᴰ xs ys → length xs ≡ length ys
  length-Perm Permᴰ.nil = refl
  length-Perm (Permᴰ.cons e h) = ap suc (length-Perm h)
  length-Perm (Permᴰ.swap e f) = refl
  length-Perm (Permᴰ.trans h k) = length-Perm h ∙ length-Perm k

  All-Perm : (P : A → Type 0) {xs ys : List A} → Permᴰ xs ys → All P xs → All P ys
  All-Perm P Permᴰ.nil all = tt
  All-Perm P (Permᴰ.cons e h) (x, xs) = (rw (sym e) x, All-Perm P h xs)
  All-Perm P (Permᴰ.swap e f) (x, (y, xs)) = (rw (sym f) y, (rw (sym e) x, xs))
  All-Perm P (Permᴰ.trans h k) all = All-Perm P k (All-Perm P h all)

  insert_row-Perm :
      (before : A → A → Bool) (x : A) (xs : List A) → Permᴰ (insert_row before x xs) (x ∷ xs)
  insert_row-Perm before x [] = Permᴰ.refl (x ∷ [])
  insert_row-Perm before x (y ∷ ys) = elim (Bool-cases (before y x)) [
    | inl later ↦
        rw later
          (Permᴰ.trans (Permᴰ.cons refl (insert_row-Perm before x ys)) (Permᴰ.swap refl refl))
    | inr here ↦ rw here (Permᴰ.refl (x ∷ y ∷ ys))
  ]

  pub order_by-Perm : (before : A → A → Bool) (xs : List A) → Permᴰ (order_by before xs) xs
  order_by-Perm before [] = Permᴰ.nil
  order_by-Perm before (x ∷ xs) =
      Permᴰ.trans (insert_row-Perm before x (order_by before xs))
        (Permᴰ.cons refl (order_by-Perm before xs))

  take-all : (n : ℕ) (xs : List A) → length xs ≤ n → take n xs ≡ xs
  take-all zero [] h = refl
  take-all zero (x ∷ xs) h = absurd (omega arith)
  take-all (suc n) [] h = refl
  take-all (suc n) (x ∷ xs) h = ap (λ ys. x ∷ ys) (take-all n xs (omega arith))

  -- A limit that is not reached cuts nothing off.
  pub take-order_by :
      (before : A → A → Bool) (p : A → Bool) (n : ℕ) {xs ys : List A}
      → Permᴰ xs ys
      → length ys ≤ n
      → any_by p (take n (order_by before xs)) ≡ any_by p ys
  take-order_by before p n {xs} {ys} h fits =
      let same = Permᴰ.trans (order_by-Perm before xs) h in
      ap (any_by p) (take-all n (order_by before xs) (rw (length-Perm same) fits))
      ∙ any_by-Perm p same

  module _ (key : A → ℕ) where
    abbrev pub smaller : A → A → Bool
    smaller x y = ltb (key x) (key y)

    -- no two rows have one value of the column
    abbrev pub Apart : List A → Type 0
    Apart [] = Unit
    Apart (x ∷ xs) = All (λ y. key x ≢ key y) xs × Apart xs

    insert_row_comm :
        (x y : A) (zs : List A)
        → key x ≢ key y
        → insert_row smaller x (insert_row smaller y zs)
          ≡ insert_row smaller y (insert_row smaller x zs)
    insert_row_comm x y [] d = ground arith
    insert_row_comm x y (z ∷ zs) d = ground (arith, insert_row_comm x y zs d)

    pub order_by-Apart :
        {xs ys : List A}
        → Permᴰ xs ys
        → Apart xs
        → (order_by smaller xs ≡ order_by smaller ys) × Apart ys
    order_by-Apart Permᴰ.nil h = (refl, tt)
    order_by-Apart (Permᴰ.cons {l₂ = ys} e p) (first, rest) =
        let (same, apart) = order_by-Apart p rest in
        (rw (e, same), (rw (sym e) (All-Perm _ p first), apart))
    order_by-Apart (Permᴰ.swap {a = x} {b = y} {a' = y'} {l = zs} e f)
          ((d, first), (second, rest)) =
        let changed : A → A → Type 0 = λ b' a'.
          (order_by smaller (x ∷ y ∷ zs) ≡ order_by smaller (a' ∷ b' ∷ zs))
          × Apart (a' ∷ b' ∷ zs) in
        subst (λ b'. changed b' y') e
          (subst (changed x) f (
            insert_row_comm x y (order_by smaller zs) d,
            (((λ same. d (sym same)), second), (first, rest)),
          ))
    order_by-Apart (Permᴰ.trans p q) h =
        let (same, apart) = order_by-Apart p h in
        let (same', apart') = order_by-Apart q apart in (same ∙ same', apart')

    pub Apart-filter : (p : A → Bool) (xs : List A) → Apart xs → Apart (filter_by p xs)
    Apart-filter p [] h = tt
    Apart-filter p (x ∷ xs) (first, rest) = elim (Bool-cases (p x)) [
      | inl keep ↦ rw keep (All-filter_by (λ y. key x ≢ key y) p xs first, Apart-filter p xs rest)
      | inr skip ↦ rw skip (Apart-filter p xs rest)
    ]
