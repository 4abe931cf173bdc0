-- ===== src/Cursor/Order.antt =====
-- The order of cursors as texts.
use native.Mathlib.Decide.{dec_lt}
use a2a_events_python.Common.{
  ℕ, zero, suc, ◌+◌, ◌/◌, ◌%◌, ◌^◌, ◌<◌, ◌≡◌, refl, true, false, [], ◌∷◌, ◌++◌, arith, ltb, length,
  Text,
}
use a2a_events_python.Cursor.{colon, digits, encode, text_lt}
use a2a_events_python.Cursor.Decimal.{max_offset, div_below, length-digits, padded_fits}

text_lt-append : (s t u : Text) → text_lt (s ++ t) (s ++ u) ≡ text_lt t u
unfolding text_lt
text_lt-append [] t u = refl
text_lt-append (c ∷ s) t u = ground (arith, text_lt-append s t u)

-- One more character at the end decides only between equal texts.
text_lt-snoc_of_lt :
    (s t : Text) (c d : ℕ)
    → length s ≡ length t
    → text_lt s t ≡ true
    → text_lt (s ++ c ∷ []) (t ++ d ∷ []) ≡ true
unfolding text_lt
text_lt-snoc_of_lt [] [] c d e h = cc
text_lt-snoc_of_lt [] (y ∷ t) c d e h = absurd (omega arith)
text_lt-snoc_of_lt (x ∷ s) [] c d e h = absurd (omega arith)
text_lt-snoc_of_lt (x ∷ s) (y ∷ t) c d e h = ground (arith, text_lt-snoc_of_lt s t c d)

pub digits_mono : (w a b : ℕ) → a < b → b < 10 ^ w → text_lt (digits w a) (digits w b) ≡ true
unfolding digits
digits_mono zero a b h k = absurd (omega arith)
digits_mono (suc w) a b h k = elim (dec_lt (a / 10) (b / 10)) [
  | yes p ↦
      text_lt-snoc_of_lt (digits w (a / 10)) (digits w (b / 10)) (48 + a % 10) (48 + b % 10)
        (omega (arith, length-digits w (a / 10), length-digits w (b / 10)))
        (digits_mono w (a / 10) (b / 10) p (div_below w b k))
  | no p ↦
      let e : a / 10 ≡ b / 10 = omega arith in
      rw (e, text_lt-append (digits w (b / 10))) (unfold text_lt in ground arith)
]

text_lt_irrefl : (s : Text) → text_lt s s ≡ false
unfolding text_lt
text_lt_irrefl [] = refl
text_lt_irrefl (c ∷ s) = ground (arith, text_lt_irrefl s)

text_lt_asymm : (s t : Text) → text_lt s t ≡ true → text_lt t s ≡ false
unfolding text_lt
text_lt_asymm [] [] h = refl
text_lt_asymm [] (d ∷ t) h = refl
text_lt_asymm (c ∷ s) [] h = cc
text_lt_asymm (c ∷ s) (d ∷ t) h = ground (arith, text_lt_asymm s t)

digits_order : (w a b : ℕ) → a < 10 ^ w → b < 10 ^ w → text_lt (digits w a) (digits w b) ≡ ltb a b
digits_order w a b h k = elim (dec_lt a b) [
  | yes p ↦ rw (digits_mono w a b p k) (ground arith)
  | no p ↦ elim (dec_lt b a) [
    | yes q ↦ rw (text_lt_asymm (digits w b) (digits w a) (digits_mono w b a q h)) (ground arith)
    | no q ↦ let e : a ≡ b = omega arith in rw (e, text_lt_irrefl (digits w b)) (ground arith)
  ]
]

-- The comparison of two cursors of one topic, which the code makes on the texts, compares the
-- offsets, up to offset 10 ^ 16.
pub text_lt-encode :
    (topic : Text) (a b : ℕ)
    → a < max_offset
    → b < max_offset
    → text_lt (encode topic a) (encode topic b) ≡ ltb a b
unfolding encode
text_lt-encode topic a b h k =
    rw (padded_fits a h, padded_fits b k, text_lt-append topic (colon ∷ digits 16 a))
      (unfold text_lt in ground (arith, digits_order 16 a b))
