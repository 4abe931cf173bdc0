-- ===== src/KeyResolver/Published.antt =====
-- The keys that a subscriber resolves are the publisher's.
use a2a_events_python.Common.{
  ◌≡◌, refl, sym, ap, ◌∙◌, true, false, Option, none, some, List, [], ◌∷◌, map, Bool-cases, inl,
  inr, Text, text_eq, text_eq_iff, Dict, get, put, has, values, get-put, get-put_self,
}
use a2a_events_python.Errors.{ok}
use a2a_events_python.Signing.{Crypto, to_jwk, sign, verify}
use a2a_events_python.Signing.Verify.{Signs, Loads, public_key_from_jwk-to_jwk, verify-sign}
use a2a_events_python.Signing.KeySet.{SigningKey, SigningKeySet, init, active, jwks, get_key}
use a2a_events_python.Signing.KeySet.Valid.{Keyed, IsValid, get-Keyed}
use a2a_events_python.Signing.KeySet.Refines.{KeyCall, perform, run, run-refines}
use a2a_events_python.Canonical.Reorder.{SameFields}
use a2a_events_python.Json.{Fields}
use a2a_events_python.KeyResolver.{Cache, cache_key, cache_all, refresh, resolve}

module _ {Private Public : Type 0} (crypto : Crypto Private Public) (loads : Loads crypto) where
  cache_key-to_jwk :
      (key : SigningKey Private) (cache : Cache crypto)
      → cache_key crypto (to_jwk crypto key.kid key.private) cache
        ≡ (ok tt, put key.kid (crypto.public_key key.private) cache)
  unfolding cache_key to_jwk get text_eq
  cache_key-to_jwk key cache =
      rw (cache_key, public_key_from_jwk-to_jwk crypto loads key.kid key.private) refl

  abbrev jwks_of : Dict (SigningKey Private) → List (Dict Text)
  jwks_of keys = map (λ key. to_jwk crypto key.kid key.private) (values keys)

  -- what is looked up once all keys of a set are cached
  abbrev public_or : Option (SigningKey Private) → Option Public → Option Public
  public_or none old = old
  public_or (some key) old = some (crypto.public_key key.private)

  cache_all-jwks :
      (keys : Dict (SigningKey Private)) (cache : Cache crypto)
      → Keyed keys
      → ((cache_all crypto (jwks_of keys) cache).0 ≡ ok tt)
        × ((kid : Text)
            → get kid (cache_all crypto (jwks_of keys) cache).1
              ≡ public_or (get kid keys) (get kid cache))
  unfolding cache_all get
  cache_all-jwks [] cache h = (refl, λ kid. refl)
  cache_all-jwks ((j, key) ∷ keys) cache (own, fresh, h) =
      let (fine, rest) =
        cache_all-jwks keys (put key.kid (crypto.public_key key.private) cache) h in
      rw (cache_key-to_jwk key cache) (
        fine,
        λ kid. elim (Bool-cases (text_eq j kid)) [
          | inl same ↦
              let e : j ≡ kid = (text_eq_iff j kid).0 same in
              let f : key.kid ≡ kid = own ∙ e in
              let gone : get kid keys ≡ none = ap (λ x. get x keys) (sym e) ∙ fresh in
              let new : get kid (put key.kid (crypto.public_key key.private) cache)
                  ≡ some (crypto.public_key key.private) =
                rw f (get-put_self kid (crypto.public_key key.private) cache) in
              rest kid ∙ rw gone (rw same new)
          | inr other ↦
              let f : text_eq key.kid kid ≡ false = rw own other in
              let old : get kid (put key.kid (crypto.public_key key.private) cache)
                  ≡ get kid cache =
                get-put key.kid kid (crypto.public_key key.private) cache ∙ rw f refl in
              rest kid ∙ rw old (rw other refl)
        ],
      )

  pub resolve-jwks :
      (s : SigningKeySet Private) (cache : Cache crypto) (key : SigningKey Private)
      → IsValid s
      → get_key key.kid s ≡ some key
      → has key.kid cache ≡ false
      → (resolve crypto (ok (jwks crypto s)) key.kid cache).0 ≡ ok (crypto.public_key key.private)
  unfolding resolve refresh jwks get_key
  resolve-jwks s cache key (keyed, signer) found unknown =
      let (fine, looked) = cache_all-jwks s.keys cache keyed in
      let got : get key.kid (cache_all crypto (jwks_of s.keys) cache).1
          ≡ some (crypto.public_key key.private) =
        looked key.kid ∙ rw found refl in
      rw (resolve, unknown) (rw (refresh, fine) (rw (resolve, got) refl))

  abbrev nothing : Cache crypto
  nothing = []

  nothing_cached : (kid : Text) → has kid nothing ≡ false
  unfolding get
  nothing_cached kid = refl

  active-IsValid :
      (s : SigningKeySet Private)
      → IsValid s
      → (signer : SigningKey Private) × (active s ≡ ok signer)
        × (get_key signer.kid s ≡ some signer)
  unfolding active get_key
  active-IsValid s (keyed, (signer, found)) =
      let own = get-Keyed s.active_kid s.keys signer keyed found in
      (signer, rw (active, found) refl, ap (λ k. get k s.keys) own ∙ found)

  -- What a publisher signs, a new subscriber can verify, after any rotation of keys. A key set is
  -- made of a key and further keys, and `add`, `activate` and `retire` are called in any order: then
  -- there is a key that signs, a subscriber with an empty cache resolves its `kid` through the
  -- published keys, and the resolved key verifies the signature of an event, also when the members
  -- of the event's objects come in another order. Ed25519 verifies what it signed, and the bytes of
  -- a public key can be loaded again.
  pub resolve-active :
      Signs crypto
      → (key : SigningKey Private) (also : List (SigningKey Private)) (cs : List (KeyCall Private))
        (timestamp : Text) (event event' : Fields)
      → SameFields event event'
      → (signer : SigningKey Private) × (public : Public) × (active
            (run perform cs (init key also)).1
          ≡ ok signer)
        × ((resolve crypto
              (ok (jwks crypto (run perform cs (init key also)).1))
              signer.kid
              nothing).0
            ≡ ok public)
        × (verify crypto public timestamp event' (sign crypto signer.private timestamp event)
            ≡ true)
  resolve-active signs key also cs timestamp event event' same =
      let s = (run perform cs (init key also)).1 in
      let valid = (run-refines key also cs).1.0 in
      let (signer, signing, found) = active-IsValid s valid in
      (
        signer,
        crypto.public_key signer.private,
        signing,
        resolve-jwks s nothing signer valid found (nothing_cached signer.kid),
        verify-sign crypto signs signer.private timestamp event event' same,
      )
