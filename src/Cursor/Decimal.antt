-- ===== src/Cursor/Decimal.antt =====
-- Fixed-width decimal numerals: their length, their characters, and that they read back.
use native.Mathlib.Nat.{pow-suc}
use a2a_events_python.Common.{
  ℕ, zero, suc, ◌+◌, ◌-◌, ◌*◌, ◌/◌, ◌%◌, ◌^◌, ◌≤◌, ◌<◌, ◌≡◌, refl, true, ◌||◌, none, some, [], ◌∷◌,
  ◌++◌, arith, ◌==◌, length, length-append, all_by, Text,
}
use a2a_events_python.Errors.{ok}
use a2a_events_python.Cursor.{
  colon, digits, width_from, padded, rpartition, decimal_digit, int_from,
}

-- Offsets below this bound fill the 16 places; no log grows past it.
abbrev pub max_offset : ℕ
max_offset = 10 ^ 16

-- `n < 10 ^ suc w` is a bound on `n / 10`
pub div_below : (w n : ℕ) → n < 10 ^ suc w → n / 10 < 10 ^ w
div_below w n h = omega (arith, pow-suc 10 w)

pub length-digits : (w n : ℕ) → length (digits w n) ≡ w
unfolding digits
length-digits zero n = refl
length-digits (suc w) n =
    omega (arith, length-digits w (n / 10), length-append (digits w (n / 10)) ((48 + n % 10) ∷ []))

abbrev pub IsDecimal : Text → Type 0
IsDecimal [] = Unit
IsDecimal (c ∷ cs) = (decimal_digit c ≡ true) × IsDecimal cs

IsDecimal-snoc : (s : Text) (c : ℕ) → IsDecimal s → decimal_digit c ≡ true → IsDecimal (s ++ c ∷ [])
IsDecimal-snoc [] c h e = (e, tt)
IsDecimal-snoc (d ∷ s) c h e = (h.0, IsDecimal-snoc s c h.1 e)

pub digits-IsDecimal : (w n : ℕ) → IsDecimal (digits w n)
unfolding digits
digits-IsDecimal zero n = tt
digits-IsDecimal (suc w) n =
    IsDecimal-snoc (digits w (n / 10)) (48 + n % 10) (digits-IsDecimal w (n / 10)) (ground arith)

pub all_by_digits :
    (s : Text)
    → IsDecimal s
    → all_by (λ c. decimal_digit c || (c == 178 || c == 179 || c == 185)) s ≡ true
all_by_digits [] h = refl
all_by_digits (c ∷ s) h = ground (arith, all_by_digits s h.1)

int_from-snoc :
    (acc : ℕ) (s : Text) (d n : ℕ)
    → int_from acc s ≡ ok n
    → d < 10
    → int_from acc (s ++ (48 + d) ∷ []) ≡ ok (n * 10 + d)
unfolding int_from
int_from-snoc acc [] d n h lt = ground arith
int_from-snoc acc (c ∷ s) d n h lt = ground (arith, int_from-snoc (acc * 10 + (c - 48)) s d n)

pub int_from-digits : (w n : ℕ) → n < 10 ^ w → int_from 0 (digits w n) ≡ ok n
unfolding int_from digits
int_from-digits zero n h = ground arith
int_from-digits (suc w) n h =
    let e : (n / 10) * 10 + n % 10 ≡ n = omega arith in
    rw
      (int_from-snoc 0 (digits w (n / 10)) (n % 10) (n / 10)
        (int_from-digits w (n / 10) (div_below w n h)) (omega arith))
      (rw e)

pub width_from_bound : (fuel w n : ℕ) → n < 10 ^ suc w → width_from fuel n ≤ suc w
unfolding width_from
width_from_bound zero w n h = omega arith
width_from_bound (suc fuel) zero n h = ground arith
width_from_bound (suc fuel) (suc w) n h =
    ground (arith, width_from_bound fuel w (n / 10) (div_below (suc w) n h))

pub padded_fits : (n : ℕ) → n < max_offset → padded n ≡ digits 16 n
unfolding padded
padded_fits n h = ground (arith, width_from_bound n 15 n h)

rpartition-none : (s : Text) → IsDecimal s → rpartition s ≡ none
unfolding rpartition
rpartition-none [] h = refl
rpartition-none (c ∷ s) h = rw (rpartition-none s h.1) (ground arith)

-- A numeral holds no colon, so the last colon of a cursor is the one before its numeral.
pub rpartition-append :
    (topic raw : Text) → IsDecimal raw → rpartition (topic ++ colon ∷ raw) ≡ some (topic, raw)
unfolding rpartition
rpartition-append [] raw h = rw (rpartition-none raw h)
rpartition-append (c ∷ topic) raw h = rw (rpartition-append topic raw h)
