-- ===== src/ReceiveStatus/Answered.antt =====
-- What the publisher reads from the receiver's answer.
use a2a_events_python.Common.{
  ℕ, ◌≡◌, refl, inl, inr, true, false, Option, none, some, Bool-cases, text,
}
use a2a_events_python.Json.{Json, Fields, get_field, truthy}
use a2a_events_python.Errors.{Result, ok, raise, Result-cases}
use a2a_events_python.HttpDelivery.{DeliveryResult, response, send_webhook, result_from_status}
use a2a_events_python.Signing.{Crypto}
use a2a_events_python.Receiver.{
  EventReceiver, Setup, Moment, accept_new, accept_id, accept_with, accept, dict_of,
  delivery_token_ok, known, verify_json, fresh, is_seen,
}
use a2a_events_python.ReceiveStatus.{receive_status}

-- the publisher's reading of the answer that a result becomes
abbrev pub read_back : DeliveryResult → DeliveryResult
read_back r = send_webhook (response (record { status_code = receive_status r; json = none }))

-- The publisher reads the acknowledgement and the wish for a retry that the result holds; a call
-- that raises is no result.
abbrev pub Agreed : Result DeliveryResult → Type 0
Agreed (raise e) = Unit
Agreed (ok r) = ((read_back r).ack ≡ r.ack) × ((read_back r).retry ≡ r.retry)

accept_new-Agreed :
    (setup : Setup) (id : Json) (event : Fields) (r : EventReceiver)
    → setup.on_event ≡ none
    → Agreed (accept_new setup id event r).0
unfolding accept_new receive_status send_webhook result_from_status
accept_new-Agreed setup id event r none_set = rw (accept_new, none_set) (refl, refl)

accept_id-Agreed :
    (setup : Setup) (found : Option Json) (event : Fields) (r : EventReceiver)
    → setup.on_event ≡ none
    → Agreed (accept_id setup found event r).0
unfolding accept_id receive_status send_webhook result_from_status
accept_id-Agreed setup none event r h = (refl, refl)
accept_id-Agreed setup (some id) event r h = elim (Bool-cases (truthy id)) [
  | inr hollow ↦ rw (accept_id, hollow) (refl, refl)
  | inl filled ↦ elim (Result-cases (is_seen id r.seen)) [
    | inr (e, failed) ↦ rw (accept_id, filled) (rw (accept_id, failed) tt)
    | inl (true, again) ↦ rw (accept_id, filled) (rw (accept_id, again) (refl, refl))
    | inl (false, new) ↦
        let step = accept_new-Agreed setup id event r h in
        rw (accept_id, filled) (rw (accept_id, new) step)
  ]
]

module _ {Private Public : Type 0} (crypto : Crypto Private Public) (setup : Setup)
    (unhooked : setup.on_event ≡ none) where
  accept_with-Agreed :
      (found : Option Public) (now : ℕ) (event : Fields) (timestamp signature : Json)
      (r : EventReceiver)
      → Agreed (accept_with crypto setup found now event timestamp signature r).0
  unfolding accept_with receive_status send_webhook result_from_status
  accept_with-Agreed none now event timestamp signature r = (refl, refl)
  accept_with-Agreed (some key) now event timestamp signature r =
      elim (Result-cases (verify_json crypto setup key timestamp event signature)) [
        | inr (e, failed) ↦ rw (accept_with, failed) tt
        | inl (false, bad) ↦ rw (accept_with, bad) (refl, refl)
        | inl (true, good) ↦ elim (Bool-cases (fresh crypto setup now timestamp)) [
          | inr late ↦ rw (accept_with, good) (rw (accept_with, late) (refl, refl))
          | inl timely ↦
              let step = accept_id-Agreed setup (get_field (text "id") event) event r unhooked in
              rw (accept_with, good) (rw (accept_with, timely) step)
        ]
      ]

  -- The publisher understands the receiver. Without a hook, whatever a delivery holds: when the
  -- receiver's result is sent back as the status of a webhook's response, the publisher reads the
  -- same acknowledgement and the same wish for a retry from it.
  pub accept-Agreed :
      (moment : Moment Public) (body key_id timestamp signature token : Json) (r : EventReceiver)
      → Agreed (accept crypto setup moment body key_id timestamp signature token r).0
  unfolding accept receive_status send_webhook result_from_status
  accept-Agreed moment body key_id timestamp signature token r =
      elim (Result-cases (dict_of body)) [
        | inr (e, failed) ↦ rw (accept, failed) tt
        | inl (event, dict) ↦
            elim (Result-cases (
              delivery_token_ok (get_field (text "a2asubscription") event) token
                r.delivery_tokens)) [
                  | inr (e, failed) ↦ rw (accept, dict) (rw (accept, failed) tt)
                  | inl (false, bad) ↦ rw (accept, dict) (rw (accept, bad) (refl, refl))
                  | inl (true, good) ↦
                      elim (Result-cases (known crypto setup (moment.resolve_key key_id))) [
                        | inr (e, failed) ↦
                            rw (accept, dict) (rw (accept, good) (rw (accept, failed) tt))
                        | inl (found, answer) ↦
                            let step =
                              accept_with-Agreed found moment.now event timestamp signature r in
                            rw (accept, dict) (rw (accept, good) (rw (accept, answer) step))
                      ]
                ]
      ]
