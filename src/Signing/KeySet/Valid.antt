-- ===== src/Signing/KeySet/Valid.antt =====
-- Well-formed key sets.
use a2a_events_python.Common.{
  ◌≡◌, refl, sym, arith, none, some, List, [], ◌∷◌, Bool-cases, inl, inr, Text, text_eq,
  text_eq_iff, text_eq_refl, Dict, get, put, remove, get-put, get-remove,
}
use a2a_events_python.Signing.KeySet.{SigningKey, SigningKeySet, publish, init}

module _ {Private : Type 0} where
  -- Each key stands under its own `kid`, once.
  abbrev pub Keyed : Dict (SigningKey Private) → Type 0
  Keyed [] = Unit
  Keyed ((kid, key) ∷ keys) = (key.kid ≡ kid) × (get kid keys ≡ none) × Keyed keys

  pub Keyed-put :
      (key : SigningKey Private) (keys : Dict (SigningKey Private))
      → Keyed keys
      → Keyed (put key.kid key keys)
  unfolding put get
  Keyed-put key [] h = (refl, refl, tt)
  Keyed-put key ((kid, k) ∷ keys) (own, fresh, h) = elim (Bool-cases (text_eq kid key.kid)) [
    | inl same ↦ rw same (sym ((text_eq_iff kid key.kid).0 same), fresh, h)
    | inr other ↦ rw other (
      own,
      ground
          (arith, get-put key.kid kid key keys, text_eq_iff kid key.kid, text_eq_iff key.kid kid),
      Keyed-put key keys h,
    )
  ]

  pub Keyed-remove :
      (kid : Text) (keys : Dict (SigningKey Private)) → Keyed keys → Keyed (remove kid keys)
  unfolding remove
  Keyed-remove kid [] h = tt
  Keyed-remove kid ((j, k) ∷ keys) (own, fresh, h) = elim (Bool-cases (text_eq j kid)) [
    | inl same ↦ rw same (Keyed-remove kid keys h)
    | inr other ↦ rw other (own, ground (arith, get-remove kid j keys), Keyed-remove kid keys h)
  ]

  -- A key that is found has the `kid` it was asked for.
  pub get-Keyed :
      (kid : Text) (keys : Dict (SigningKey Private)) (key : SigningKey Private)
      → Keyed keys
      → get kid keys ≡ some key
      → key.kid ≡ kid
  unfolding get
  get-Keyed kid [] key h found = absurd (cc)
  get-Keyed kid ((j, k) ∷ keys) key (own, fresh, h) found = elim (Bool-cases (text_eq j kid)) [
    | inl same ↦ let e = (text_eq_iff j kid).0 same in let f = rw same at found in cc
    | inr other ↦ get-Keyed kid keys key h (rw other at found)
  ]

  -- and the key that signs is there
  abbrev pub IsValid : SigningKeySet Private → Type 0
  IsValid s = Keyed s.keys × ((key : SigningKey Private) × (get s.active_kid s.keys ≡ some key))

  publish-Keyed :
      (also : List (SigningKey Private)) (keys : Dict (SigningKey Private))
      → Keyed keys
      → Keyed (publish also keys)
  unfolding publish
  publish-Keyed [] keys h = h
  publish-Keyed (key ∷ also) keys h =
      publish-Keyed also (put key.kid key keys) (Keyed-put key keys h)

  publish-present :
      (also : List (SigningKey Private)) (keys : Dict (SigningKey Private)) (kid : Text)
      → ((key : SigningKey Private) × (get kid keys ≡ some key))
      → (key : SigningKey Private) × (get kid (publish also keys) ≡ some key)
  unfolding publish
  publish-present [] keys kid h = h
  publish-present (key ∷ also) keys kid (old, found) =
      publish-present also (put key.kid key keys) kid (elim (Bool-cases (text_eq key.kid kid)) [
        | inl same ↦ (key, ground (arith, get-put key.kid kid key keys))
        | inr other ↦ (old, ground (arith, get-put key.kid kid key keys))
      ])

  pub init-IsValid :
      (key : SigningKey Private) (also : List (SigningKey Private)) → IsValid (init key also)
  unfolding init get
  init-IsValid key also = (
    publish-Keyed also ((key.kid, key) ∷ []) (refl, refl, tt),
    publish-present also ((key.kid, key) ∷ []) key.kid (key, rw (text_eq_refl key.kid) refl),
  )
