-- ===== src/KeyResolver.antt =====
-- `JwksKeyResolver` of server.py: a subscriber's cache of a publisher's keys. What the JWKS endpoint
-- answers, when it is asked, is an argument: the "keys" of its body, or what the HTTP client raises.
pub mod Published
use a2a_events_python.Common.{
  Bool, false, ◌&&◌, Option, none, some, List, [], ◌∷◌, if◌then◌else◌, Text, text, text_eq, Dict,
  get, put, has,
}
use a2a_events_python.Errors.{Result, ok, raise, key_error}
use a2a_events_python.Exec.{Exec, ◌>>=◌, ◌>>◌, pure, lift, gets, modify}
use a2a_events_python.Signing.{Crypto, public_key_from_jwk}

-- d.get(name) == value
abbrev names : Text → Text → Dict Text → Bool
names name value d = elim (get name d) [ none ↦ false | some v ↦ text_eq v value ]

abbrev subscript : Text → Dict Text → Result Text
subscript name d = elim (get name d) [ none ↦ raise key_error | some v ↦ ok v ]

module _ {Private Public : Type 0} (crypto : Crypto Private Public) where
  -- `_cache`
  abbrev pub Cache : Type 0
  Cache = Dict Public

  -- a round of the loop of `_refresh`
  unfoldable pub cache_key : Dict Text → Exec Cache (Unit {0})
  cache_key jwk =
      if names (text "kty") (text "OKP") jwk && names (text "crv") (text "Ed25519") jwk
      then (do
        key ← lift (public_key_from_jwk crypto jwk)
        kid ← lift (subscript (text "kid") jwk)
        modify (put kid key))
      else pure tt

  unfoldable pub cache_all : List (Dict Text) → Exec Cache (Unit {0})
  cache_all [] = pure tt
  cache_all (jwk ∷ jwks) = do cache_key jwk; cache_all jwks

  -- `_refresh`
  unfoldable pub refresh : Result (List (Dict Text)) → Exec Cache (Unit {0})
  refresh answer = do jwks ← lift answer; cache_all jwks

  abbrev found_or : Option Public → Result Public
  found_or none = raise key_error
  found_or (some key) = ok key

  -- `__call__`
  unfoldable pub resolve : Result (List (Dict Text)) → Text → Exec Cache Public
  resolve answer key_id = do
    known ← gets (has key_id)
    if known then pure tt else refresh answer
    found ← gets (get key_id)
    lift (found_or found)
