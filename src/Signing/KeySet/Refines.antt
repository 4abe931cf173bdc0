-- ===== src/Signing/KeySet/Refines.antt =====
-- The key set as a table from `kid` to key with the `kid` that signs, in no order.
use a2a_events_python.Common.{
  ◌≡◌, refl, sym, ◌∙◌, arith, Bool, true, false, Option, none, some, List, [], ◌∷◌, if◌then◌else◌,
  Bool-cases, Option-cases, inl, inr, Text, text_eq, Dict, get, put, has, get-put, get-remove,
  get-put_self,
}
use a2a_events_python.Errors.{Result, ok, raise, key_error, value_error}
use a2a_events_python.Exec.{Exec}
use a2a_events_python.Signing.KeySet.{
  init, SigningKey, SigningKeySet, add, activate, retire, get_key,
}
use a2a_events_python.Signing.KeySet.Valid.{IsValid, init-IsValid, Keyed-put, Keyed-remove}

-- the calls that change a key set
pub data KeyCall (Private : Type 0) : Type 0 where
  adds : SigningKey Private → Bool → KeyCall Private
  activates : Text → KeyCall Private
  retires : Text → KeyCall Private

pub record Table (Private : Type 0) : Type 0 where
  pub published : Text → Option (SigningKey Private)
  pub signing : Text

module _ {Private : Type 0} where
  unfoldable pub perform : KeyCall Private → Exec (SigningKeySet Private) (Unit {0})
  perform (adds key now) = add key now
  perform (activates kid) = activate kid
  perform (retires kid) = retire kid

  -- What a call promises on the table.
  unfoldable pub promised : KeyCall Private → Exec (Table Private) (Unit {0})
  promised (adds key now) t = (
    ok tt,
    record {
      published = λ j. if text_eq key.kid j then some key else t.published j;
      signing = if now then key.kid else t.signing;
    },
  )
  promised (activates kid) t = elim (t.published kid) [
    | none ↦ (raise key_error, t)
    | some _ ↦ (ok tt, record t { signing = kid })
  ]
  promised (retires kid) t =
      if text_eq kid t.signing
      then (raise value_error, t)
      else (ok tt, record t { published = λ j. if text_eq kid j then none else t.published j })

  -- the outcomes of calls one after the other, and the last state
  unfoldable pub run :
      {S : Type 0}
      → (KeyCall Private → Exec S (Unit {0}))
      → List (KeyCall Private)
      → S
      → List (Result (Unit {0})) × S
  run f [] s = ([], s)
  run f (c ∷ cs) s = let (r, t) = f c s in let (rs, u) = run f cs t in (r ∷ rs, u)

  -- A valid key set whose keys are those of the table, and the same one signs.
  abbrev pub Agrees : SigningKeySet Private → Table Private → Type 0
  Agrees s t = IsValid s × ((j : Text) → get_key j s ≡ t.published j) × (s.active_kid ≡ t.signing)

  get-put_or :
      (key : SigningKey Private) (keys : Dict (SigningKey Private)) (kid : Text)
      (old : SigningKey Private)
      → get kid keys ≡ some old
      → (new : SigningKey Private) × (get kid (put key.kid key keys) ≡ some new)
  get-put_or key keys kid old found = elim (Bool-cases (text_eq key.kid kid)) [
    | inl same ↦ (key, ground (arith, get-put key.kid kid key keys))
    | inr other ↦ (old, ground (arith, get-put key.kid kid key keys))
  ]

  add-Agrees :
      (key : SigningKey Private) (now : Bool) (s : SigningKeySet Private) (t : Table Private)
      → Agrees s t
      → ((add key now s).0 ≡ (promised (adds key now) t).0)
        × Agrees (add key now s).1 (promised (adds key now) t).1
  unfolding promised get_key add
  add-Agrees key true s t ((keyed, _), same, signs) = (
    refl,
    (
      (Keyed-put key s.keys keyed, (key, get-put_self key.kid key s.keys)),
      (λ j. get-put key.kid j key s.keys ∙ rw (same j) refl),
      refl,
    ),
  )
  add-Agrees key false s t ((keyed, (signer, found)), same, signs) = (
    refl,
    (
      (Keyed-put key s.keys keyed, get-put_or key s.keys s.active_kid signer found),
      (λ j. get-put key.kid j key s.keys ∙ rw (same j) refl),
      signs,
    ),
  )

  activate-Agrees :
      (kid : Text) (s : SigningKeySet Private) (t : Table Private)
      → Agrees s t
      → ((activate kid s).0 ≡ (promised (activates kid) t).0)
        × Agrees (activate kid s).1 (promised (activates kid) t).1
  unfolding promised get_key activate
  activate-Agrees kid s t h = elim (Option-cases (get kid s.keys)) [
    | inl missing ↦
        let there : t.published kid ≡ none = sym (h.1 kid) ∙ missing in
        let absent : has kid s.keys ≡ false = rw (has, missing) refl in
        rw (activate, absent) (rw (promised, there) (refl, h))
    | inr (key, found) ↦
        let there : t.published kid ≡ some key = sym (h.1 kid) ∙ found in
        let present : has kid s.keys ≡ true = rw (has, found) refl in
        rw (activate, present) (rw (promised, there) (refl, ((h.0.0, (key, found)), h.1, refl)))
  ]

  retire-Agrees :
      (kid : Text) (s : SigningKeySet Private) (t : Table Private)
      → Agrees s t
      → ((retire kid s).0 ≡ (promised (retires kid) t).0)
        × Agrees (retire kid s).1 (promised (retires kid) t).1
  unfolding promised get_key retire
  retire-Agrees kid s t h = elim (Bool-cases (text_eq kid s.active_kid)) [
    | inl same ↦
        let there : text_eq kid t.signing ≡ true = rw (sym h.2) same in
        rw (retire, same) (rw (promised, there) (refl, h))
    | inr other ↦
        let there : text_eq kid t.signing ≡ false = rw (sym h.2) other in
        rw (retire, other)
          (rw (promised, there)
            (
              refl,
              (
                (
                  Keyed-remove kid s.keys h.0.0,
                  (h.0.1.0, get-remove kid s.active_kid s.keys ∙ rw other h.0.1.1),
                ),
                (λ j. get-remove kid j s.keys ∙ rw (h.1 j) refl),
                h.2,
              ),
            ))
  ]

  perform-Agrees :
      (c : KeyCall Private) (s : SigningKeySet Private) (t : Table Private)
      → Agrees s t
      → ((perform c s).0 ≡ (promised c t).0) × Agrees (perform c s).1 (promised c t).1
  unfolding perform
  perform-Agrees (adds key now) s t h = add-Agrees key now s t h
  perform-Agrees (activates kid) s t h = activate-Agrees kid s t h
  perform-Agrees (retires kid) s t h = retire-Agrees kid s t h

  run-Agrees :
      (cs : List (KeyCall Private)) (s : SigningKeySet Private) (t : Table Private)
      → Agrees s t
      → ((run perform cs s).0 ≡ (run promised cs t).0)
        × Agrees (run perform cs s).1 (run promised cs t).1
  unfolding run
  run-Agrees [] s t h = (refl, h)
  run-Agrees (c ∷ cs) s t h =
      let (e, k) = perform-Agrees c s t h in
      let (f, l) = run-Agrees cs (perform c s).1 (promised c t).1 k in (rw e (rw f refl), l)

  -- the table at the start
  abbrev pub table_of : SigningKey Private → List (SigningKey Private) → Table Private
  table_of key also = record { published = λ j. get_key j (init key also); signing = key.kid }

  signs_first :
      (key : SigningKey Private) (also : List (SigningKey Private))
      → (init key also).active_kid ≡ key.kid
  unfolding init
  signs_first key also = refl

  -- A key set keeps what it promises. Started from a key and further keys to publish, after any
  -- calls of `add`, `activate` and `retire`: each call has returned or raised what it promises on the
  -- table of the published keys, and the key set agrees with the table at the end.
  pub run-refines :
      (key : SigningKey Private) (also : List (SigningKey Private)) (cs : List (KeyCall Private))
      → ((run perform cs (init key also)).0 ≡ (run promised cs (table_of key also)).0)
        × Agrees (run perform cs (init key also)).1 (run promised cs (table_of key also)).1
  run-refines key also cs =
      run-Agrees cs (init key also) (table_of key also)
        (init-IsValid key also, (λ j. refl), signs_first key also)
