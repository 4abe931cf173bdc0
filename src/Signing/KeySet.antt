-- ===== src/Signing/KeySet.antt =====
-- `SigningKeySet` of signing.py: the keys that are published, and the one that signs.
pub mod Valid
pub mod Refines
use a2a_events_python.Common.{
  Bool, Option, none, some, List, [], ◌∷◌, map, if◌then◌else◌, Text, text_eq, Dict, get, put,
  remove, has, values,
}
use a2a_events_python.Errors.{Result, ok, raise, key_error, value_error}
use a2a_events_python.Exec.{Exec}
use a2a_events_python.Signing.{Crypto, to_jwk}

pub record SigningKey (Private : Type 0) : Type 0 where
  pub kid : Text
  pub private : Private

-- `_keys` and `_active_kid`
pub record SigningKeySet (Private : Type 0) : Type 0 where
  pub keys : Dict (SigningKey Private)
  pub active_kid : Text

module _ {Private : Type 0} where
  unfoldable pub publish :
      List (SigningKey Private) → Dict (SigningKey Private) → Dict (SigningKey Private)
  publish [] keys = keys
  publish (key ∷ more) keys = publish more (put key.kid key keys)

  -- `__init__`
  unfoldable pub init : SigningKey Private → List (SigningKey Private) → SigningKeySet Private
  unfolding publish
  init active also_published = record {
    keys = publish also_published ((active.kid, active) ∷ []);
    active_kid = active.kid;
  }

  unfoldable pub active : SigningKeySet Private → Result (SigningKey Private)
  active s = elim (get s.active_kid s.keys) [ none ↦ raise key_error | some key ↦ ok key ]

  unfoldable pub get_key : Text → SigningKeySet Private → Option (SigningKey Private)
  get_key kid s = get kid s.keys

  unfoldable pub add : SigningKey Private → Bool → Exec (SigningKeySet Private) (Unit {0})
  add key activate s = (
    ok tt,
    record {
      keys = put key.kid key s.keys;
      active_kid = if activate then key.kid else s.active_kid;
    },
  )

  unfoldable pub activate : Text → Exec (SigningKeySet Private) (Unit {0})
  activate kid s =
      if has kid s.keys then (ok tt, record s { active_kid = kid }) else (raise key_error, s)

  unfoldable pub retire : Text → Exec (SigningKeySet Private) (Unit {0})
  retire kid s =
      if text_eq kid s.active_kid
      then (raise value_error, s)
      else (ok tt, record s { keys = remove kid s.keys })

  unfoldable pub jwks :
      {Public : Type 0} → Crypto Private Public → SigningKeySet Private → List (Dict Text)
  jwks crypto s = map (λ key. to_jwk crypto key.kid key.private) (values s.keys)
