-- ===== src/Signing/Verify.antt =====
-- What a publisher signs, a subscriber can verify.
use a2a_events_python.Common.{
  ◌≡◌, refl, sym, ap, ◌∙◌, true, some, ◌∷◌, ◌++◌, Text, text_eq, get, All,
}
use a2a_events_python.Json.{obj, Fields}
use a2a_events_python.Errors.{ok}
use a2a_events_python.Selectors.{starts_with}
use a2a_events_python.Canonical.Reorder.{SameFields, in_obj, canon-SameJson}
use a2a_events_python.Signing.{
  Crypto, utf8, signature_prefix, without_prefix, canonicalize, signing_input, sign, verify, to_jwk,
  public_key_from_jwk,
}
use a2a_events_python.Signing.Base64.{b64url}
use a2a_events_python.Signing.Base64.RoundTrip.{IsByte, b64url_decode-b64url}

without_prefix-sign : (s : Text) → without_prefix (signature_prefix ++ s) ≡ s
unfolding without_prefix starts_with
without_prefix-sign s = refl

module _ {Private Public : Type 0} (crypto : Crypto Private Public) where
  -- What Ed25519 promises: a signature consists of bytes and verifies with the public key.
  abbrev pub Signs : Type 0
  Signs =
      (key : Private) (message : Text)
      → All IsByte (crypto.sign key message)
        × (crypto.verify (crypto.public_key key) (crypto.sign key message) message ≡ true)

  -- the bytes of a public key can be loaded again
  abbrev pub Loads : Type 0
  Loads =
      (key : Public)
      → All IsByte (crypto.public_bytes key)
        × (crypto.from_public_bytes (crypto.public_bytes key) ≡ some key)

  signing_input-SameFields :
      (timestamp : Text) (event event' : Fields)
      → SameFields event event'
      → signing_input crypto timestamp event ≡ signing_input crypto timestamp event'
  unfolding signing_input canonicalize
  signing_input-SameFields timestamp event event' same =
      ap (λ t. utf8 timestamp ++ 46 ∷ utf8 t)
        (canon-SameJson crypto.shortest (obj event) (obj event') (in_obj same))

  verify-prefix :
      (key : Public) (timestamp : Text) (event : Fields) (raw : Text)
      → All IsByte raw
      → verify crypto key timestamp event (signature_prefix ++ b64url raw)
        ≡ crypto.verify key raw (signing_input crypto timestamp event)
  unfolding verify
  verify-prefix key timestamp event raw bytes =
      rw (verify, without_prefix-sign (b64url raw))
        (rw (verify, b64url_decode-b64url raw bytes) refl)

  -- What a publisher signs, a subscriber verifies with the public key, also when the members of the
  -- event's objects have come in another order. Ed25519 verifies what it signed.
  pub verify-sign :
      Signs
      → (key : Private) (timestamp : Text) (event event' : Fields) → SameFields event event'
      → verify crypto (crypto.public_key key) timestamp event' (sign crypto key timestamp event)
        ≡ true
  unfolding sign
  verify-sign signs key timestamp event event' same =
      let message = signing_input crypto timestamp event in
      let (bytes, verified) = signs key message in
      verify-prefix (crypto.public_key key) timestamp event' (crypto.sign key message) bytes
      ∙ rw (sym (signing_input-SameFields timestamp event event' same)) verified

  -- The key that a subscriber reads from the published key is the public key of the signing key. The
  -- bytes of a public key can be loaded again.
  pub public_key_from_jwk-to_jwk :
      Loads
      → (kid : Text) (key : Private)
      → public_key_from_jwk crypto (to_jwk crypto kid key) ≡ ok (crypto.public_key key)
  unfolding public_key_from_jwk to_jwk get text_eq
  public_key_from_jwk-to_jwk loads kid key =
      let (bytes, loaded) = loads (crypto.public_key key) in
      rw
        (
          public_key_from_jwk,
          b64url_decode-b64url (crypto.public_bytes (crypto.public_key key)) bytes,
        )
        (rw loaded refl)
