-- ===== src/Signing/Base64.antt =====
-- The text of a signature and of a key: `_b64url` and `_b64url_decode` of signing.py, with Python's
-- base64 in full. Bytes are numbers below 256.
pub mod RoundTrip
use a2a_events_python.Common.{
  ℕ, zero, suc, ◌+◌, ◌-◌, ◌*◌, ◌/◌, ◌%◌, Bool, true, false, ◌&&◌, Option, none, some, [], ◌∷◌, ◌++◌,
  ltb, leb, ◌==◌, if◌then◌else◌, length, Text, is_empty, all_by,
}

-- "="
abbrev pub pad : ℕ
pad = 61

-- the URL-safe alphabet: A-Z a-z 0-9 - _
unfoldable pub letter : ℕ → ℕ
letter v =
    if ltb v 26
    then 65 + v
    else if ltb v 52
    then 71 + v
    else if ltb v 62
    then v - 4
    else if v == 62
    then 45
    else 95

-- base64.urlsafe_b64encode
unfoldable pub b64encode : Text → Text
unfolding letter
b64encode [] = []
b64encode (a ∷ []) = letter (a / 4) ∷ letter (a % 4 * 16) ∷ pad ∷ pad ∷ []
b64encode (a ∷ b ∷ []) =
    letter (a / 4) ∷ letter (a % 4 * 16 + b / 16) ∷ letter (b % 16 * 4) ∷ pad ∷ []
b64encode (a ∷ b ∷ c ∷ rest) =
    letter (a / 4)
    ∷ letter (a % 4 * 16 + b / 16)
    ∷ letter (b % 16 * 4 + c / 64)
    ∷ letter (c % 64)
    ∷ b64encode rest

-- .rstrip(b"=")
unfoldable pub rstrip_pad : Text → Text
rstrip_pad [] = []
rstrip_pad (c ∷ cs) = let rest = rstrip_pad cs in if c == pad && is_empty rest then [] else c ∷ rest

unfoldable pub b64url : Text → Text
unfolding b64encode rstrip_pad
b64url raw = rstrip_pad (b64encode raw)

-- The value of a character. `urlsafe_b64decode` reads "-" and "_" as "+" and "/", which it reads too.
unfoldable pub sextet : ℕ → Option ℕ
sextet c =
    if leb 65 c && leb c 90
    then some (c - 65)
    else if leb 97 c && leb c 122
    then some (c - 71)
    else if leb 48 c && leb c 57
    then some (c + 4)
    else if c == 45
    then some 62
    else if c == 43
    then some 62
    else if c == 95
    then some 63
    else if c == 47
    then some 63
    else none

-- Where the decoder stands in a group of four characters: how many it has read, the bits left over,
-- and after two characters whether it has met a "=".
pub data Quad : Type 0 where
  q0 : Quad
  q1 : ℕ → Quad
  q2 : ℕ → Bool → Quad
  q3 : ℕ → Quad

pub data Step : Type 0 where
  stop : Step
  emit : Text → Quad → Step

-- a "="
abbrev at_pad : Quad → Step
at_pad (q2 left false) = emit [] (q2 left true)
at_pad (q2 left true) = stop
at_pad (q3 left) = stop
at_pad q = emit [] q

abbrev pub at_value : Quad → ℕ → Step
at_value q0 v = emit [] (q1 v)
at_value (q1 left) v = emit ((left * 4 + v / 16) ∷ []) (q2 (v % 16) false)
at_value (q2 left padded) v = emit ((left * 16 + v / 4) ∷ []) (q3 (v % 4))
at_value (q3 left) v = emit ((left * 64 + v) ∷ []) q0

-- Other characters are passed over.
unfoldable pub step : Quad → ℕ → Step
unfolding sextet
step q c =
    if c == pad then at_pad q else elim (sextet c) [ none ↦ emit [] q | some v ↦ at_value q v ]

abbrev ends : Quad → Option Text
ends q0 = some []
ends q = none

abbrev pub prepend : Text → Option Text → Option Text
prepend out none = none
prepend out (some rest) = some (out ++ rest)

-- binascii.a2b_base64; a failure is `none`
unfoldable pub scan : Quad → Text → Option Text
unfolding step
scan q [] = ends q
scan q (c ∷ cs) = elim (step q c) [ stop ↦ some [] | emit out q' ↦ prepend out (scan q' cs) ]

-- "=" * (-len(value) % 4)
abbrev pub padding : ℕ → Text
padding zero = []
padding (suc zero) = pad ∷ pad ∷ pad ∷ []
padding (suc (suc zero)) = pad ∷ pad ∷ []
padding (suc (suc (suc n))) = pad ∷ []

-- A text with other characters than ASCII is refused, with a `ValueError` as all failures here.
unfoldable pub b64url_decode : Text → Option Text
unfolding scan
b64url_decode value =
    if all_by (λ c. ltb c 128) value then scan q0 (value ++ padding (length value % 4)) else none
