-- ===== src/Receiver/Again.antt =====
-- A delivery that comes again.
use a2a_events_python.Common.{
  ℕ, ◌≡◌, refl, ap, ◌∙◌, inl, inr, arith, Bool, true, false, none, some, List, [], ◌∷◌, ◌++◌,
  Bool-cases, text, text_eq_refl, any_by, ℤ,
}
use a2a_events_python.Json.{
  Json, null, bool, int, float, str, arr, obj, Fields, get_field, scalar_eq, truthy, number_eq,
}
use a2a_events_python.Errors.{ok, Result-cases}
use a2a_events_python.Signing.{Crypto}
use a2a_events_python.Receiver.{
  EventReceiver, Setup, Moment, accepted, is_seen, accept_new, accept_id, accept_with, accept,
  call_hook, known, fresh, delivery_token_ok,
}
use a2a_events_python.Receiver.Trusted.{acked, Trusted, accept-Trusted}

number_eq_refl : (x : ℤ × ℕ) → number_eq x x ≡ true
unfolding number_eq
number_eq_refl x = ground arith

any_by-snoc {ℓ} :
    {A : Type ℓ} (p : A → Bool) (xs : List A) (x : A) → p x ≡ true → any_by p (xs ++ x ∷ []) ≡ true
any_by-snoc p [] x h = rw h refl
any_by-snoc p (y ∷ ys) x h = ground (arith, any_by-snoc p ys x h)

-- An id that was just added is seen.
is_seen-snoc :
    (id : Json) (ids : List Json) (b : Bool)
    → is_seen id ids ≡ ok b
    → is_seen id (ids ++ id ∷ []) ≡ ok true
unfolding is_seen scalar_eq
is_seen-snoc null ids b h = ap ok (any_by-snoc (scalar_eq null) ids null refl)
is_seen-snoc (bool true) ids b h = ap ok (any_by-snoc (scalar_eq (bool true)) ids (bool true) refl)
is_seen-snoc (bool false) ids b h =
    ap ok (any_by-snoc (scalar_eq (bool false)) ids (bool false) refl)
is_seen-snoc (int n) ids b h =
    ap ok (any_by-snoc (scalar_eq (int n)) ids (int n) (number_eq_refl (n, 0)))
is_seen-snoc (float m k) ids b h =
    ap ok (any_by-snoc (scalar_eq (float m k)) ids (float m k) (number_eq_refl (m, k)))
is_seen-snoc (str s) ids b h = ap ok (any_by-snoc (scalar_eq (str s)) ids (str s) (text_eq_refl s))
is_seen-snoc (arr xs) ids b h = absurd (cc)
is_seen-snoc (obj fs) ids b h = absurd (cc)

-- the id is seen, and the tokens are as before
abbrev Noted : Json → EventReceiver → EventReceiver → Type 0
Noted id r r' = (is_seen id r'.seen ≡ ok true) × (r'.delivery_tokens ≡ r.delivery_tokens)

accept_new-Noted :
    (setup : Setup) (id : Json) (event : Fields) (r : EventReceiver)
    → is_seen id r.seen ≡ ok false
    → acked (accept_new setup id event r).0 ≡ true
    → Noted id r (accept_new setup id event r).1
unfolding accept_new
accept_new-Noted setup id event r fresh h = elim (Result-cases (call_hook setup.on_event event)) [
  | inr (e, failed) ↦ absurd (let k = rw (accept_new, failed) at h in cc)
  | inl (none, answer) ↦ rw (accept_new, answer) (is_seen-snoc id r.seen false fresh, refl)
  | inl (some result, answer) ↦
      let k = rw (accept_new, answer) at h in
      elim (Bool-cases result.ack) [
        | inl done ↦ rw (accept_new, answer) (rw done (is_seen-snoc id r.seen false fresh, refl))
        | inr not_done ↦ absurd (let l = rw not_done at k in cc)
      ]
]

accept_id-Noted :
    (setup : Setup) (id : Json) (event : Fields) (r : EventReceiver)
    → truthy id ≡ true
    → acked (accept_id setup (some id) event r).0 ≡ true
    → Noted id r (accept_id setup (some id) event r).1
unfolding accept_id
accept_id-Noted setup id event r filled h = elim (Result-cases (is_seen id r.seen)) [
  | inr (e, failed) ↦ absurd (let k = rw (accept_id, filled, failed) at h in cc)
  | inl (true, again) ↦ rw (accept_id, filled, again) (again, refl)
  | inl (false, fresh) ↦
      let k = rw (accept_id, filled, fresh) at h in
      let step = accept_new-Noted setup id event r fresh k in rw (accept_id, filled, fresh) step
]

module _ {Private Public : Type 0} (crypto : Crypto Private Public) (setup : Setup) where
  -- What is done with a delivery that can be trusted.
  accept-opened :
      (moment : Moment Public) (body key_id timestamp signature token : Json) (r r' : EventReceiver)
      → (t : Trusted crypto setup moment body key_id timestamp signature token r)
      → r'.delivery_tokens ≡ r.delivery_tokens
      → accept crypto setup moment body key_id timestamp signature token r'
        ≡ accept_id setup (some t.id) t.event r'
  unfolding accept accept_with
  accept-opened moment body key_id timestamp signature token r r' t same =
      let allowed : delivery_token_ok (get_field (text "a2asubscription") t.event) token
            r'.delivery_tokens
          ≡ ok true =
        ap (delivery_token_ok (get_field (text "a2asubscription") t.event) token) same
        ∙ t.token_ok in
      let key : known crypto setup (moment.resolve_key key_id) ≡ ok (some t.key) =
        rw t.resolved refl in
      rw (accept, t.is_dict)
        (rw (accept, allowed)
          (rw (accept, key)
            (rw (accept_with, t.verified) (rw (accept_with, t.in_time) (rw t.has_id refl)))))

  accept_id-again :
      (id : Json) (event : Fields) (r : EventReceiver)
      → truthy id ≡ true
      → is_seen id r.seen ≡ ok true
      → accept_id setup (some id) event r ≡ (ok (accepted 200), r)
  unfolding accept_id
  accept_id-again id event r filled seen = rw (accept_id, filled, seen) refl

  -- A delivery that was acknowledged may come again: it is acknowledged once more with status 200,
  -- at the same moment, and the receiver's state stays as it is, so that the hook is not called for
  -- it and nothing is kept twice.
  pub accept_again :
      (moment : Moment Public) (body key_id timestamp signature token : Json) (r : EventReceiver)
      → acked (accept crypto setup moment body key_id timestamp signature token r).0 ≡ true
      → accept crypto setup moment body key_id timestamp signature token
          (accept crypto setup moment body key_id timestamp signature token r).1
        ≡ (
          ok (accepted 200),
          (accept crypto setup moment body key_id timestamp signature token r).1,
        )
  accept_again moment body key_id timestamp signature token r h =
      elim (accept-Trusted crypto setup moment body key_id timestamp signature token r) [
        | inr (refused, same) ↦ absurd (cc)
        | inl t ↦
            let first = accept-opened moment body key_id timestamp signature token r r t refl in
            let h' : acked (accept_id setup (some t.id) t.event r).0 ≡ true = rw first at h in
            let (seen, same) = accept_id-Noted setup t.id t.event r t.true_id h' in
            let r' = (accept_id setup (some t.id) t.event r).1 in
            rw first (
              accept-opened moment body key_id timestamp signature token r r' t same
              ∙ accept_id-again t.id t.event r' t.true_id seen)
      ]
