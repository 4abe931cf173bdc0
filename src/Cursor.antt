-- ===== src/Cursor.antt =====
-- cursor.py: cursors "<topic>:<offset>" with the offset in decimal, padded with zeros to 16 places.
-- Offsets are natural numbers, so the `offset < 0` guard of `encode` has no case here: no caller
-- in the runtime passes a negative one. Texts are read up to code point 255: there `str.isdigit`
-- holds of 0-9 and of the superscripts ² ³ ¹, and `int` reads 0-9 only and refuses more than
-- 4300 digits (Python's default limit).
pub mod Decimal
pub mod Order
pub mod RoundTrip
pub mod Malformed
use a2a_events_python.Common.{
  ℕ, zero, suc, ◌+◌, ◌-◌, ◌*◌, ◌/◌, ◌%◌, ◌≡◌, refl, Bool, true, false, not, ◌&&◌, ◌||◌, Option,
  none, some, List, [], ◌∷◌, ◌++◌, ◌==◌, ltb, leb, if◌then◌else◌, length, all_by, Text, text,
  text_eq, is_empty,
}
use a2a_events_python.Errors.{Result, ok, raise, protocol, value_error, ErrorCode, ◌>>=◌}
use a2a_events_python.Errors.{invalid_cursor}

abbrev pub earliest : Text
earliest = text "earliest"

abbrev pub latest : Text
latest = text "latest"

abbrev pub offset_width : ℕ
offset_width = 16

abbrev pub colon : ℕ
colon = 58

-- The last `w` decimal digits of `n`.
unfoldable pub digits : ℕ → ℕ → Text
digits zero n = []
digits (suc w) n = digits w (n / 10) ++ (48 + n % 10) ∷ []

-- How many digits `n` has. A number has no more digits than its value, or one.
unfoldable pub width_from : ℕ → ℕ → ℕ
width_from zero n = 1
width_from (suc fuel) n = let rest = width_from fuel (n / 10) in if ltb n 10 then 1 else suc rest

unfoldable pub padded : ℕ → Text
unfolding digits width_from
padded n =
    let w = width_from n n in if leb w offset_width then digits offset_width n else digits w n

-- f"{topic}:{offset:016d}"
unfoldable pub encode : Text → ℕ → Text
unfolding padded
encode topic offset = topic ++ colon ∷ padded offset

-- cursor.rpartition(":"); `none` where there is no colon
unfoldable pub rpartition : Text → Option (Text × Text)
rpartition [] = none
rpartition (c ∷ cs) = elim (rpartition cs) [
  | some (topic, raw) ↦ some (c ∷ topic, raw)
  | none ↦ if c == colon then some ([], cs) else none
]

abbrev pub decimal_digit : ℕ → Bool
decimal_digit c = leb 48 c && leb c 57

abbrev superscript : ℕ → Bool
superscript c = c == 178 || c == 179 || c == 185

-- raw.isdigit()
unfoldable pub is_digits : Text → Bool
is_digits raw = not (is_empty raw) && all_by (λ c. decimal_digit c || superscript c) raw

unfoldable pub int_from : ℕ → Text → Result ℕ
int_from acc [] = ok acc
int_from acc (c ∷ cs) =
    let rest = int_from (acc * 10 + (c - 48)) cs in
    if decimal_digit c then rest else raise value_error

-- int(raw)
unfoldable pub parse_int : Text → Result ℕ
unfolding int_from
parse_int raw = if ltb 4300 (length raw) then raise value_error else int_from 0 raw

unfoldable pub split : Text → Result (Text × ℕ)
unfolding rpartition is_digits parse_int
split cursor = elim (rpartition cursor) [
  | none ↦ raise (protocol invalid_cursor)
  | some (topic, raw) ↦
      if is_empty topic || not (is_digits raw)
      then raise (protocol invalid_cursor)
      else do offset ← parse_int raw; ok (topic, offset)
]

unfoldable pub offset_of : Text → Result ℕ
unfolding split
offset_of cursor = do (topic, offset) ← split cursor; ok offset

unfoldable pub offset_for : Text → Text → Result ℕ
unfolding split
offset_for topic cursor = do
  (cursor_topic, offset) ← split cursor
  if text_eq cursor_topic topic then ok offset else raise (protocol invalid_cursor)

unfoldable pub topic_of : Text → Result Text
unfolding split
topic_of cursor = do (topic, offset) ← split cursor; ok topic

-- a < b, by code points
unfoldable pub text_lt : Text → Text → Bool
text_lt [] [] = false
text_lt [] (d ∷ ds) = true
text_lt (c ∷ cs) [] = false
text_lt (c ∷ cs) (d ∷ ds) = ltb c d || (c == d && text_lt cs ds)
