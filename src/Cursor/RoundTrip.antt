-- ===== src/Cursor/RoundTrip.antt =====
-- Decoding what `encode` builds.
use a2a_events_python.Common.{
  ℕ, ◌<◌, ◌≡◌, ◌≢◌, refl, true, false, [], ◌∷◌, arith, Text, text_eq, is_empty, if◌then◌else◌,
}
use a2a_events_python.Errors.{ok, raise, protocol}
use a2a_events_python.Errors.{invalid_cursor}
use a2a_events_python.Cursor.{
  digits, encode, is_digits, parse_int, split, offset_of, offset_for, topic_of,
}
use a2a_events_python.Cursor.Decimal.{
  max_offset, length-digits, digits-IsDecimal, all_by_digits, int_from-digits, padded_fits,
  rpartition-append,
}

not-is_empty : (s : Text) → s ≢ [] → is_empty s ≡ false
not-is_empty [] h = absurd (h refl)
not-is_empty (c ∷ s) h = refl

is_digits-digits : (n : ℕ) → is_digits (digits 16 n) ≡ true
unfolding is_digits
is_digits-digits n = ground (
  arith,
  all_by_digits (digits 16 n) (digits-IsDecimal 16 n),
  length-digits 16 n,
  not-is_empty (digits 16 n),
)

parse_int-digits : (n : ℕ) → n < max_offset → parse_int (digits 16 n) ≡ ok n
unfolding parse_int
parse_int-digits n h = rw (length-digits 16 n) (int_from-digits 16 n h)

-- For a topic with a name and an offset below 10 ^ 16, the decoder gives back both, whatever
-- colons the name holds.
pub split-encode :
    (topic : Text) (n : ℕ) → topic ≢ [] → n < max_offset → split (encode topic n) ≡ ok (topic, n)
unfolding split encode
split-encode topic n named h = rw (padded_fits n h) (
    ground (
      arith,
      rpartition-append topic (digits 16 n) (digits-IsDecimal 16 n),
      not-is_empty topic named,
      is_digits-digits n,
      parse_int-digits n h,
    ))

pub offset_of-encode :
    (topic : Text) (n : ℕ) → topic ≢ [] → n < max_offset → offset_of (encode topic n) ≡ ok n
unfolding offset_of
offset_of-encode topic n named h = rw (split-encode topic n named h)

pub topic_of-encode :
    (topic : Text) (n : ℕ) → topic ≢ [] → n < max_offset → topic_of (encode topic n) ≡ ok topic
unfolding topic_of
topic_of-encode topic n named h = rw (split-encode topic n named h)

-- `offset_for` accepts a cursor for its own topic only.
pub offset_for-encode :
    (topic other : Text) (n : ℕ)
    → topic ≢ []
    → n < max_offset
    → offset_for other (encode topic n)
      ≡ (if text_eq topic other then ok n else raise (protocol invalid_cursor))
unfolding offset_for
offset_for-encode topic other n named h = rw (split-encode topic n named h)
