-- ===== src/AgentCard/Signed/Verifies.antt =====
-- A signed card verifies.
use a2a_events_python.Common.{
  ℕ, ◌+◌, ◌*◌, ◌==◌, ◌/◌, ◌%◌, ◌≡◌, ◌≢◌, refl, ap, arith, Bool, true, false, some, [], ◌∷◌, ◌++◌,
  ltb, Bool-cases, inl, inr, Text, text, text_eq, text_eq_iff, all_by,
}
use a2a_events_python.Json.{
  Json, str, arr, obj, nil, cons, Fields, end, field, get_field, put_field, truthy,
}
use a2a_events_python.Errors.{ok}
use a2a_events_python.Signing.{Crypto, utf8, canonicalize}
use a2a_events_python.Signing.Verify.{Signs}
use a2a_events_python.Signing.Base64.{letter, b64encode, b64url, rstrip_pad, pad}
use a2a_events_python.Signing.Base64.RoundTrip.{b64url_decode-b64url}
use a2a_events_python.AgentCard.{Python, each_or_empty, iterate}
use a2a_events_python.AgentCard.Signed.{
  unsigned, header, payload, verify_one, verify_any, verify_card, card_signature, sign_card,
}

unsigned-put_field :
    (v : Json) (card : Fields)
    → unsigned (put_field (text "signatures") v (unsigned card)) ≡ unsigned card
unfolding unsigned put_field text_eq
unsigned-put_field v end = refl
unsigned-put_field v (field k w card) = elim (Bool-cases (text_eq k (text "signatures"))) [
  | inl same ↦ rw same (unsigned-put_field v card)
  | inr other ↦ rw other (rw other (rw other (ap (field k w) (unsigned-put_field v card))))
]

get_field-put_field :
    (key : Text) (v : Json) (fs : Fields) → get_field key (put_field key v fs) ≡ some v
unfolding get_field put_field
get_field-put_field key v end = rw ((text_eq_iff key key).1 refl) refl
get_field-put_field key v (field k w fs) = elim (Bool-cases (text_eq k key)) [
  | inl same ↦ rw same (rw same refl)
  | inr other ↦ rw other (rw other (get_field-put_field key v fs))
]

-- All characters of an encoding are ASCII.
letter_ascii : (v : ℕ) → ltb (letter v) 128 ≡ true
unfolding letter
letter_ascii v = ground arith

abbrev is_ascii : ℕ → Bool
is_ascii c = ltb c 128

ascii-b64encode : (raw : Text) → all_by is_ascii (b64encode raw) ≡ true
unfolding b64encode
ascii-b64encode [] = refl
ascii-b64encode (a ∷ []) = rw (letter_ascii (a / 4), letter_ascii (a % 4 * 16)) refl
ascii-b64encode (a ∷ b ∷ []) =
    rw (letter_ascii (a / 4), letter_ascii (a % 4 * 16 + b / 16), letter_ascii (b % 16 * 4)) refl
ascii-b64encode (a ∷ b ∷ c ∷ rest) =
    rw
      (
        letter_ascii (a / 4),
        letter_ascii (a % 4 * 16 + b / 16),
        letter_ascii (b % 16 * 4 + c / 64),
        letter_ascii (c % 64),
      )
      (ascii-b64encode rest)

ascii-rstrip_pad : (cs : Text) → all_by is_ascii cs ≡ true → all_by is_ascii (rstrip_pad cs) ≡ true
unfolding rstrip_pad
ascii-rstrip_pad [] h = refl
ascii-rstrip_pad (c ∷ cs) h = ground (arith, ascii-rstrip_pad cs)

ascii-b64url : (raw : Text) → all_by is_ascii (b64url raw) ≡ true
unfolding b64url
ascii-b64url raw = ascii-rstrip_pad (b64encode raw) (ascii-b64encode raw)

ascii-append :
    (s t : Text)
    → all_by is_ascii s ≡ true
    → all_by is_ascii t ≡ true
    → all_by is_ascii (s ++ t) ≡ true
ascii-append [] t h k = k
ascii-append (c ∷ cs) t h k = ground (arith, ascii-append cs t)

letter-pad : (v : ℕ) → (letter v == pad) ≡ false
unfolding letter
letter-pad v = ground arith

truthy-b64url : (raw : Text) → raw ≢ [] → truthy (str (b64url raw)) ≡ true
unfolding truthy b64url b64encode
truthy-b64url [] h = absurd (h refl)
truthy-b64url (a ∷ []) h = rw (rstrip_pad, letter-pad (a / 4)) refl
truthy-b64url (a ∷ b ∷ []) h = rw (rstrip_pad, letter-pad (a / 4)) refl
truthy-b64url (a ∷ b ∷ c ∷ rest) h = rw (rstrip_pad, letter-pad (a / 4)) refl

truthy-header : (kid : Text) → truthy (str (b64url (utf8 (header kid)))) ≡ true
unfolding header truthy b64url b64encode rstrip_pad letter utf8
truthy-header kid = refl

module _ {Private Public : Type 0} (crypto : Crypto Private Public) (signs : Signs crypto)
    (long : (key : Private) (message : Text) → crypto.sign key message ≢ []) (py : Python) where
  verify_one-card_signature :
      (key : Private) (kid card : Text)
      → verify_one crypto py
          (crypto.public_key key)
          (b64url card)
          (card_signature crypto key kid (b64url card))
        ≡ ok true
  unfolding verify_one card_signature get_field text_eq
  verify_one-card_signature key kid card =
      let protected = b64url (utf8 (header kid)) in
      let message = protected ++ text "." ++ b64url card in
      let (bytes, verified) = signs key message in
      let plain : all_by is_ascii message ≡ true =
        ascii-append (protected ++ text ".") (b64url card)
          (ascii-append protected (text ".") (ascii-b64url (utf8 (header kid))) refl)
          (ascii-b64url card) in
      rw (verify_one, truthy-header kid)
        (rw (truthy-b64url (crypto.sign key message) (long key message))
          (rw plain (rw (b64url_decode-b64url (crypto.sign key message) bytes) (ap ok verified))))

  -- A card that `sign_card` has signed passes the verifier that has the public key, whatever
  -- signatures the card had before. Ed25519 verifies what it signed, and its signatures are not
  -- empty.
  pub verify_card-sign_card :
      (key : Private) (kid : Text) (card : Fields)
      → verify_card crypto py (crypto.public_key key) (obj (sign_card crypto key kid card))
        ≡ ok true
  unfolding verify_card sign_card payload each_or_empty iterate truthy verify_any
  verify_card-sign_card key kid card =
      let sig = card_signature crypto key kid (payload crypto card) in
      let found = get_field-put_field (text "signatures") (arr (cons sig nil)) (unsigned card) in
      let same : payload crypto (sign_card crypto key kid card) ≡ payload crypto card =
        ap (λ fs. b64url (canonicalize crypto fs)) (unsigned-put_field (arr (cons sig nil)) card) in
      let good = verify_one-card_signature key kid (canonicalize crypto (unsigned card)) in
      rw (verify_card, found) (rw (verify_any, same) (rw (verify_any, good) refl))
