-- ===== src/Signing/Base64/RoundTrip.antt =====
-- Decoding what was encoded.
use a2a_events_python.Common.{
  ℕ, ◌+◌, ◌*◌, ◌/◌, ◌%◌, ◌<◌, ◌≡◌, refl, sym, ap, ◌∙◌, arith, suc, true, false, Option, none, some,
  List, [], ◌∷◌, ◌++◌, ltb, ◌==◌, length, Text, all_by, All, map, append_assoc,
}
use a2a_events_python.Signing.Base64.{
  letter, b64encode, rstrip_pad, b64url, sextet, Quad, q0, q1, q2, q3, at_value, step, prepend,
  scan, padding, pad, b64url_decode,
}

-- a byte
abbrev pub IsByte : ℕ → Type 0
IsByte b = b < 256

sextet-letter : (v : ℕ) → v < 64 → sextet (letter v) ≡ some v
unfolding letter sextet
sextet-letter v h = ground arith

letter-ascii : (v : ℕ) → v < 64 → ((letter v == pad) ≡ false) × (ltb (letter v) 128 ≡ true)
unfolding letter
letter-ascii v h = ground arith

step-letter : (q : Quad) (v : ℕ) → v < 64 → step q (letter v) ≡ at_value q v
unfolding step
step-letter q v h = rw (letter-ascii v h).0 (rw (sextet-letter v h) refl)

rstrip-letter : (v : ℕ) (cs : Text) → v < 64 → rstrip_pad (letter v ∷ cs) ≡ letter v ∷ rstrip_pad cs
unfolding rstrip_pad
rstrip-letter v cs h = rw (letter-ascii v h).0 refl

-- the six-bit values of an encoding
abbrev sextets : Text → List ℕ
sextets [] = []
sextets (a ∷ []) = a / 4 ∷ a % 4 * 16 ∷ []
sextets (a ∷ b ∷ []) = a / 4 ∷ (a % 4 * 16 + b / 16) ∷ b % 16 * 4 ∷ []
sextets (a ∷ b ∷ c ∷ rest) =
    a / 4 ∷ (a % 4 * 16 + b / 16) ∷ (b % 16 * 4 + c / 64) ∷ c % 64 ∷ sextets rest

sextets_bounded : (raw : Text) → All IsByte raw → All (λ v. v < 64) (sextets raw)
sextets_bounded [] h = tt
sextets_bounded (a ∷ []) (x, h) = (omega arith, (omega arith, tt))
sextets_bounded (a ∷ b ∷ []) (x, (y, h)) = (omega arith, (omega arith, (omega arith, tt)))
sextets_bounded (a ∷ b ∷ c ∷ rest) (x, (y, (z, h))) =
    (omega arith, (omega arith, (omega arith, (omega arith, sextets_bounded rest h))))

abbrev pads : Text → Text
pads [] = []
pads (a ∷ []) = pad ∷ pad ∷ []
pads (a ∷ b ∷ []) = pad ∷ []
pads (a ∷ b ∷ c ∷ rest) = pads rest

b64encode-sextets : (raw : Text) → b64encode raw ≡ map letter (sextets raw) ++ pads raw
unfolding b64encode
b64encode-sextets [] = refl
b64encode-sextets (a ∷ []) = refl
b64encode-sextets (a ∷ b ∷ []) = refl
b64encode-sextets (a ∷ b ∷ c ∷ rest) = rw (b64encode-sextets rest) refl

rstrip-pads : (raw : Text) → rstrip_pad (pads raw) ≡ []
unfolding rstrip_pad
rstrip-pads [] = refl
rstrip-pads (a ∷ []) = refl
rstrip-pads (a ∷ b ∷ []) = refl
rstrip-pads (a ∷ b ∷ c ∷ rest) = rstrip-pads rest

rstrip-letters :
    (vs : List ℕ) (ps : Text)
    → All (λ v. v < 64) vs
    → rstrip_pad ps ≡ []
    → rstrip_pad (map letter vs ++ ps) ≡ map letter vs
rstrip-letters [] ps h e = e
rstrip-letters (v ∷ vs) ps (x, h) e =
    rstrip-letter v (map letter vs ++ ps) x ∙ rw (rstrip-letters vs ps h e) refl

b64url-sextets : (raw : Text) → All IsByte raw → b64url raw ≡ map letter (sextets raw)
unfolding b64url
b64url-sextets raw h =
    rw (b64encode-sextets raw)
      (rstrip-letters (sextets raw) (pads raw) (sextets_bounded raw h) (rstrip-pads raw))

letters-ascii :
    (vs : List ℕ) → All (λ v. v < 64) vs → all_by (λ c. ltb c 128) (map letter vs) ≡ true
letters-ascii [] h = refl
letters-ascii (v ∷ vs) (x, h) = rw (letter-ascii v x).1 (letters-ascii vs h)

padding-group : (n : ℕ) → padding (suc (suc (suc (suc n))) % 4) ≡ padding (n % 4)
padding-group n = ap padding (omega arith)

prepend-nil : (o : Option Text) → prepend [] o ≡ o
prepend-nil none = refl
prepend-nil (some t) = refl

scan-first : (v : ℕ) (cs : Text) → v < 64 → scan q0 (letter v ∷ cs) ≡ scan (q1 v) cs
unfolding scan
scan-first v cs h = rw (scan, step-letter q0 v h) (prepend-nil (scan (q1 v) cs))

scan-second :
    (u v : ℕ) (cs : Text)
    → v < 64
    → scan (q1 u) (letter v ∷ cs) ≡ prepend ((u * 4 + v / 16) ∷ []) (scan (q2 (v % 16) false) cs)
unfolding scan
scan-second u v cs h = rw (scan, step-letter (q1 u) v h) refl

scan-third :
    (u v : ℕ) (cs : Text)
    → v < 64
    → scan (q2 u false) (letter v ∷ cs) ≡ prepend ((u * 16 + v / 4) ∷ []) (scan (q3 (v % 4)) cs)
unfolding scan
scan-third u v cs h = rw (scan, step-letter (q2 u false) v h) refl

scan-fourth :
    (u v : ℕ) (cs : Text)
    → v < 64
    → scan (q3 u) (letter v ∷ cs) ≡ prepend ((u * 64 + v) ∷ []) (scan q0 cs)
unfolding scan
scan-fourth u v cs h = rw (scan, step-letter (q3 u) v h) refl

prepend-prepend :
    (xs ys : Text) (o : Option Text) → prepend xs (prepend ys o) ≡ prepend (xs ++ ys) o
prepend-prepend xs ys none = refl
prepend-prepend xs ys (some t) = ap some (sym (append_assoc xs ys t))

scan-group :
    (s t u v : ℕ) (cs : Text)
    → s < 64
    → t < 64
    → u < 64
    → v < 64
    → scan q0 (letter s ∷ letter t ∷ letter u ∷ letter v ∷ cs)
      ≡ prepend ((s * 4 + t / 16) ∷ (t % 16 * 16 + u / 4) ∷ (u % 4 * 64 + v) ∷ []) (scan q0 cs)
scan-group s t u v cs hs ht hu hv =
    scan-first s (letter t ∷ letter u ∷ letter v ∷ cs) hs
    ∙ scan-second s t (letter u ∷ letter v ∷ cs) ht
    ∙ rw (scan-third (t % 16) u (letter v ∷ cs) hu) (
        rw (scan-fourth (u % 4) v cs hv) (
          rw (prepend-prepend ((t % 16 * 16 + u / 4) ∷ []) ((u % 4 * 64 + v) ∷ []) (scan q0 cs)) (
            prepend-prepend ((s * 4 + t / 16) ∷ []) ((t % 16 * 16 + u / 4) ∷ (u % 4 * 64 + v) ∷ [])
              (scan q0 cs))))

-- The three bytes, from the values of their letters.
first-byte : (a b : ℕ) → b < 256 → a / 4 * 4 + (a % 4 * 16 + b / 16) / 16 ≡ a
first-byte a b h = omega arith

second-byte :
    (a b c : ℕ)
    → b < 256
    → c < 256
    → (a % 4 * 16 + b / 16) % 16 * 16 + (b % 16 * 4 + c / 64) / 4 ≡ b
second-byte a b c h k = omega arith

third-byte : (b c : ℕ) → c < 256 → (b % 16 * 4 + c / 64) % 4 * 64 + c % 64 ≡ c
third-byte b c k = omega arith

ends-one :
    (s t : ℕ)
    → s < 64
    → t < 64
    → scan q0 (letter s ∷ letter t ∷ pad ∷ pad ∷ []) ≡ some ((s * 4 + t / 16) ∷ [])
unfolding scan step
ends-one s t hs ht =
    scan-first s (letter t ∷ pad ∷ pad ∷ []) hs ∙ scan-second s t (pad ∷ pad ∷ []) ht

ends-two :
    (s t u : ℕ)
    → s < 64
    → t < 64
    → u < 64
    → scan q0 (letter s ∷ letter t ∷ letter u ∷ pad ∷ [])
      ≡ some ((s * 4 + t / 16) ∷ (t % 16 * 16 + u / 4) ∷ [])
unfolding scan step
ends-two s t u hs ht hu =
    scan-first s (letter t ∷ letter u ∷ pad ∷ []) hs
    ∙ scan-second s t (letter u ∷ pad ∷ []) ht
    ∙ ap (prepend ((s * 4 + t / 16) ∷ [])) (scan-third (t % 16) u (pad ∷ []) hu)

decodes :
    (raw : Text)
    → All IsByte raw
    → scan q0 (map letter (sextets raw) ++ padding (length (map letter (sextets raw)) % 4))
      ≡ some raw
unfolding scan
decodes [] h = refl
decodes (a ∷ []) (x, h) =
    ends-one (a / 4) (a % 4 * 16) (omega arith) (omega arith)
    ∙ ap (λ b. some (b ∷ [])) (omega arith)
decodes (a ∷ b ∷ []) (x, (y, h)) =
    let p = first-byte a b y in
    let q : (a % 4 * 16 + b / 16) % 16 * 16 + b % 16 * 4 / 4 ≡ b = omega arith in
    ends-two (a / 4) (a % 4 * 16 + b / 16) (b % 16 * 4) (omega arith) (omega arith) (omega arith)
    ∙ cc
decodes (a ∷ b ∷ c ∷ rest) (x, (y, (z, h))) =
    let p = first-byte a b y in
    let q = second-byte a b c y z in
    let r = third-byte b c z in
    let tail = map letter (sextets rest) in
    scan-group (a / 4) (a % 4 * 16 + b / 16) (b % 16 * 4 + c / 64) (c % 64)
      (tail ++ padding (suc (suc (suc (suc (length tail)))) % 4)) (omega arith) (omega arith)
      (omega arith) (omega arith)
    ∙ rw (padding-group (length tail)) (rw (decodes rest h) cc)

-- A text that encodes bytes is decoded to these bytes: the encoding has its padding stripped, the
-- decoding puts it back.
pub b64url_decode-b64url : (raw : Text) → All IsByte raw → b64url_decode (b64url raw) ≡ some raw
unfolding b64url_decode
b64url_decode-b64url raw h =
    rw (b64url-sextets raw h)
      (rw (letters-ascii (sextets raw) (sextets_bounded raw h)) (decodes raw h))
