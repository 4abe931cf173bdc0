-- ===== src/Receiver/Trusted.antt =====
-- What an acknowledgement of a delivery means.
use a2a_events_python.Common.{
  ℕ, ◌≡◌, refl, ap, ◌∙◌, ◌⊎◌, inl, inr, Bool, true, false, Option, none, some, Bool-cases, text,
}
use a2a_events_python.Json.{Json, null, bool, int, float, str, arr, obj, Fields, get_field, truthy}
use a2a_events_python.Errors.{Result, ok, raise, key_error, Result-cases}
use a2a_events_python.HttpDelivery.{DeliveryResult}
use a2a_events_python.Signing.{Crypto}
use a2a_events_python.Receiver.{
  EventReceiver, Setup, Moment, accept, accept_with, accept_id, delivery_token_ok, verify_json,
  fresh, known,
}

-- bool(result.ack), and no acknowledgement where a call raises
abbrev pub acked : Result DeliveryResult → Bool
acked (ok r) = r.ack
acked (raise e) = false

-- no acknowledgement, and nothing is kept
abbrev pub Refused : EventReceiver → Result DeliveryResult × EventReceiver → Type 0
Refused r y = (acked y.0 ≡ false) × (y.1 ≡ r)

accept_id-Refused :
    (setup : Setup) (found : Option Json) (event : Fields) (r : EventReceiver)
    → ((id : Json) × (found ≡ some id) × (truthy id ≡ true))
      ⊎ Refused r (accept_id setup found event r)
unfolding accept_id
accept_id-Refused setup none event r = inr (refl, refl)
accept_id-Refused setup (some id) event r = elim (Bool-cases (truthy id)) [
  | inl filled ↦ inl (id, refl, filled)
  | inr hollow ↦ inr (rw (accept_id, hollow) (refl, refl))
]

module _ {Private Public : Type 0} (crypto : Crypto Private Public) (setup : Setup) where
  -- What has been checked of a delivery: its token, its key, its signature, its time and its id.
  pub record Trusted (moment : Moment Public) (body key_id timestamp signature token : Json)
      (r : EventReceiver) : Type 0 where
    pub event : Fields
    pub key : Public
    pub id : Json
    pub is_dict : body ≡ obj event
    pub token_ok :
        delivery_token_ok (get_field (text "a2asubscription") event) token r.delivery_tokens
        ≡ ok true
    pub resolved : moment.resolve_key key_id ≡ ok key
    pub verified : verify_json crypto setup key timestamp event signature ≡ ok true
    pub in_time : fresh crypto setup moment.now timestamp ≡ true
    pub has_id : get_field (text "id") event ≡ some id
    pub true_id : truthy id ≡ true

  -- the key, and what is verified with it
  abbrev Checked : Option Public → ℕ → Fields → Json → Json → Type 0
  Checked found now event timestamp signature =
      (key : Public) × (found ≡ some key)
      × (verify_json crypto setup key timestamp event signature ≡ ok true)
      × (fresh crypto setup now timestamp ≡ true)
      × ((id : Json) × (get_field (text "id") event ≡ some id) × (truthy id ≡ true))

  accept_with-Refused :
      (found : Option Public) (now : ℕ) (event : Fields) (timestamp signature : Json)
      (r : EventReceiver)
      → Checked found now event timestamp signature
        ⊎ Refused r (accept_with crypto setup found now event timestamp signature r)
  unfolding accept_with
  accept_with-Refused none now event timestamp signature r = inr (refl, refl)
  accept_with-Refused (some key) now event timestamp signature r =
      elim (Result-cases (verify_json crypto setup key timestamp event signature)) [
        | inr (e, failed) ↦ inr (rw (accept_with, failed) (refl, refl))
        | inl (false, bad) ↦ inr (rw (accept_with, bad) (refl, refl))
        | inl (true, good) ↦ elim (Bool-cases (fresh crypto setup now timestamp)) [
          | inr late ↦ inr (rw (accept_with, good) (rw (accept_with, late) (refl, refl)))
          | inl timely ↦ elim (accept_id-Refused setup (get_field (text "id") event) event r) [
            | inl has ↦ inl (key, refl, good, timely, has)
            | inr refused ↦ inr (rw (accept_with, good) (rw (accept_with, timely) refused))
          ]
        ]
      ]

  known-some :
      (answer : Result Public) (key : Public)
      → known crypto setup answer ≡ ok (some key)
      → answer ≡ ok key
  known-some (ok k) key h = cc
  known-some (raise key_error) key h = absurd (cc)
  known-some (raise e) key h = cc

  accept_dict-Refused :
      (moment : Moment Public) (event : Fields) (key_id timestamp signature token : Json)
      (r : EventReceiver)
      → Trusted moment (obj event) key_id timestamp signature token r
        ⊎ Refused r (accept crypto setup moment (obj event) key_id timestamp signature token r)
  unfolding accept
  accept_dict-Refused moment event key_id timestamp signature token r =
      elim (Result-cases
        (delivery_token_ok (get_field (text "a2asubscription") event) token r.delivery_tokens)) [
          | inr (e, failed) ↦ inr (rw (accept, failed) (refl, refl))
          | inl (false, bad) ↦ inr (rw (accept, bad) (refl, refl))
          | inl (true, good) ↦
              elim (Result-cases (known crypto setup (moment.resolve_key key_id))) [
                | inr (e, failed) ↦ inr (rw (accept, good) (rw (accept, failed) (refl, refl)))
                | inl (found, answer) ↦
                    elim (accept_with-Refused found moment.now event timestamp signature r) [
                      | inr refused ↦ inr (rw (accept, good) (rw (accept, answer) refused))
                      | inl (key, there, verified, timely, (id, has, filled)) ↦ inl (record {
                        event = event;
                        key = key;
                        id = id;
                        is_dict = refl;
                        token_ok = good;
                        resolved =
                            known-some (moment.resolve_key key_id) key (answer ∙ ap ok there);
                        verified = verified;
                        in_time = timely;
                        has_id = has;
                        true_id = filled;
                      })
                    ]
              ]
        ]

  -- A delivery is acknowledged, and its event kept, only if it can be trusted. Whatever comes in,
  -- either the delivery has been checked -- it is a dict with a true id, the token check passes (the
  -- token is the one registered for its subscription, or no token is registered, or it names no
  -- subscription), its key is known, its signature verifies, and its time is within the window --
  -- or it is not acknowledged, be it by an answer or an exception, and the
  -- receiver's state stays as it was.
  pub accept-Trusted :
      (moment : Moment Public) (body key_id timestamp signature token : Json) (r : EventReceiver)
      → Trusted moment body key_id timestamp signature token r
        ⊎ Refused r (accept crypto setup moment body key_id timestamp signature token r)
  unfolding accept
  accept-Trusted moment (obj event) key_id timestamp signature token r =
      accept_dict-Refused moment event key_id timestamp signature token r
  accept-Trusted moment null key_id timestamp signature token r = inr (refl, refl)
  accept-Trusted moment (bool b) key_id timestamp signature token r = inr (refl, refl)
  accept-Trusted moment (int n) key_id timestamp signature token r = inr (refl, refl)
  accept-Trusted moment (float m k) key_id timestamp signature token r = inr (refl, refl)
  accept-Trusted moment (str s) key_id timestamp signature token r = inr (refl, refl)
  accept-Trusted moment (arr xs) key_id timestamp signature token r = inr (refl, refl)
