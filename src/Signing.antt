-- ===== src/Signing.antt =====
-- signing.py: signatures, keys and the key set. Ed25519 is a third-party library: its functions are
-- the fields of `Crypto`. Bytes are numbers below 256, and texts hold no lone surrogates.
pub mod Base64
pub mod KeySet
pub mod Verify
use a2a_events_python.Common.{
  ℕ, ◌+◌, ◌/◌, ◌%◌, Bool, false, Option, none, some, [], ◌∷◌, ◌++◌, drop, ltb, if◌then◌else◌, Text,
  text, ℤ, Dict, get,
}
use a2a_events_python.Json.{obj, Fields}
use a2a_events_python.Errors.{Result, ok, raise, key_error, value_error}
use a2a_events_python.Errors
use a2a_events_python.Selectors.{starts_with}
use a2a_events_python.Canonical.{canon}
use a2a_events_python.Signing.Base64.{b64url, b64url_decode}

-- What is used of `cryptography` and of `Decimal`. `verify` is false for `InvalidSignature`; a text of
-- bytes of the wrong length is no public key.
pub record Crypto (Private Public : Type 0) : Type 0 where
  pub sign : Private → Text → Text
  pub public_key : Private → Public
  pub verify : Public → Text → Text → Bool
  pub public_bytes : Public → Text
  pub from_public_bytes : Text → Option Public
  pub shortest : ℕ → ℕ → Text × ℤ

-- s.encode("utf-8")
unfoldable pub utf8 : Text → Text
utf8 [] = []
utf8 (c ∷ cs) =
    let rest = utf8 cs in
    let last = 128 + c % 64 in
    if ltb c 128
    then c ∷ rest
    else if ltb c 2048
    then (192 + c / 64) ∷ last ∷ rest
    else if ltb c 65536
    then (224 + c / 4096) ∷ (128 + c / 64 % 64) ∷ last ∷ rest
    else (240 + c / 262144) ∷ (128 + c / 4096 % 64) ∷ (128 + c / 64 % 64) ∷ last ∷ rest

-- SIGNATURE_PREFIX
abbrev pub signature_prefix : Text
signature_prefix = text "v1="

-- value[len(SIGNATURE_PREFIX):] if value.startswith(SIGNATURE_PREFIX) else value
unfoldable pub without_prefix : Text → Text
unfolding starts_with
without_prefix s = if starts_with signature_prefix s then drop 3 s else s

module _ {Private Public : Type 0} (crypto : Crypto Private Public) where
  unfoldable pub canonicalize : Fields → Text
  unfolding utf8
  canonicalize event = utf8 (canon crypto.shortest (obj event))

  unfoldable pub signing_input : Text → Fields → Text
  unfolding canonicalize
  signing_input timestamp event = utf8 timestamp ++ 46 ∷ canonicalize event

  -- `SigningKey.sign`
  unfoldable pub sign : Private → Text → Fields → Text
  unfolding signing_input
  sign key timestamp event =
      signature_prefix ++ b64url (crypto.sign key (signing_input timestamp event))

  unfoldable pub verify : Public → Text → Fields → Text → Bool
  unfolding without_prefix
  verify key timestamp event signature = elim (b64url_decode (without_prefix signature)) [
    | none ↦ false
    | some raw ↦ crypto.verify key raw (signing_input timestamp event)
  ]

  -- `public_raw_b64url` and `to_jwk`
  unfoldable pub to_jwk : Text → Private → Dict Text
  to_jwk kid key =
      (text "kty", text "OKP")
      ∷ (text "crv", text "Ed25519")
      ∷ (text "kid", kid)
      ∷ (text "alg", text "EdDSA")
      ∷ (text "x", b64url (crypto.public_bytes (crypto.public_key key)))
      ∷ []

  abbrev key_of : Option Public → Result Public
  key_of none = raise value_error
  key_of (some key) = ok key

  unfoldable pub public_key_from_jwk : Dict Text → Result Public
  public_key_from_jwk jwk = elim (get (text "x") jwk) [
    | none ↦ raise key_error
    | some x ↦ elim (b64url_decode x) [
      | none ↦ raise value_error
      | some raw ↦ key_of (crypto.from_public_bytes raw)
    ]
  ]
