-- ===== src/Receiver/Delivered.antt =====
-- A publisher's webhook and a subscriber's receiver, put together.
use a2a_events_python.Common.{
  ◌≡◌, refl, ap, ◌∙◌, true, false, Option, none, some, [], ◌∷◌, Text, text, text_eq, text_eq_refl,
  Dict, get, put, Option-cases, inl, inr,
}
use a2a_events_python.Json.{Json, null, str, obj, Fields, get_field, scalar_eq, truthy}
use a2a_events_python.Errors.{ok}
use a2a_events_python.Models.{Subscription}
use a2a_events_python.Auth.{partition_space}
use a2a_events_python.Canonical.Reorder.{SameFields}
use a2a_events_python.Signing.{Crypto, sign, verify, without_prefix}
use a2a_events_python.Signing.Base64.{b64url_decode}
use a2a_events_python.Signing.Verify.{Signs, verify-sign}
use a2a_events_python.Publisher.{Env, Config}
use a2a_events_python.Publisher.Send.{headers_of, token_for, with_token}
use a2a_events_python.Receiver.{
  EventReceiver, Setup, Moment, keep, accepted, is_seen, accept_new, accept_id, accept_with, accept,
  verify_json, within_skew, delivery_token_ok,
}
use a2a_events_python.Receiver.Framing.{accept_webhook, lowered, presented}

-- `str.lower` on the names in a webhook's headers
abbrev pub Lowers : (Text → Text) → Type 0
Lowers lower =
    (lower (text "Authorization") ≡ text "authorization")
    × (lower (text "A2A-Event-Signature") ≡ text "a2a-event-signature")
    × (lower (text "A2A-Event-Timestamp") ≡ text "a2a-event-timestamp")
    × (lower (text "A2A-Event-Key-ID") ≡ text "a2a-event-key-id")
    × (lower (text "A2A-Subscription-ID") ≡ text "a2a-subscription-id")
    × (lower (text "Bearer") ≡ text "bearer")
    × (lower [] ≡ [])

verify_json-str :
    {Private Public : Type 0} (crypto : Crypto Private Public) (setup : Setup) (key : Public)
    (timestamp : Text) (event : Fields) (signature : Text)
    → verify_json crypto setup key (str timestamp) event (str signature)
      ≡ ok (verify crypto key timestamp event signature)
unfolding verify_json verify
verify_json-str crypto setup key timestamp event signature =
    elim (Option-cases (b64url_decode (without_prefix signature))) [
      | inl none_there ↦ rw (verify_json, verify, none_there) refl
      | inr (raw, there) ↦ rw (verify_json, verify, there) refl
    ]

module _ {Private Public : Type 0} (crypto : Crypto Private Public) (setup : Setup)
    (lowers : Lowers setup.lower) (env : Env) (cfg : Config) (sub : Subscription) where
  -- the bearer token of a subscription's deliveries
  abbrev token_json : Option Text → Json
  token_json none = null
  token_json (some token) = str (setup.strip token)

  accept-with_token :
      (token : Option Text) (moment : Moment Public) (signature timestamp kid sid : Text)
      (body : Json) (r : EventReceiver)
      → accept_webhook crypto setup moment
          (with_token (text "Authorization") (text "Bearer ") token (
            (text "A2A-Event-Signature", signature)
            ∷ (text "A2A-Event-Timestamp", timestamp)
            ∷ (text "A2A-Event-Key-ID", kid)
            ∷ (text "A2A-Subscription-ID", sid)
            ∷ []))
          body
          r
        ≡ accept crypto setup moment body
            (str kid)
            (str timestamp)
            (str signature)
            (token_json token)
            r
  unfolding accept_webhook lowered presented partition_space get put text_eq
  accept-with_token none moment signature timestamp kid sid body r =
      let (a, b, c, d, e, f, g) = lowers in rw (b, c, d, e, g) refl
  accept-with_token (some token) moment signature timestamp kid sid body r =
      let (a, b, c, d, e, f, g) = lowers in rw (a, b, c, d, e, f) refl

  token-expected :
      (token : Option Text)
      → ((t : Text) → token ≡ some t → setup.strip t ≡ t)
      → (sid : Text) (tokens : Dict Text) → get sid tokens ≡ token
      → delivery_token_ok (some (str sid)) (token_json token) tokens ≡ ok true
  unfolding delivery_token_ok scalar_eq
  token-expected none plain sid tokens same = rw (delivery_token_ok, same) refl
  token-expected (some t) plain sid tokens same =
      rw (delivery_token_ok, same) (rw (plain t refl) (rw (text_eq_refl t) refl))

  -- What the publisher sends by webhook, the receiver accepts. The publisher signs an event with a
  -- key whose public key the subscriber resolves, and Ed25519 verifies what it signed; the members of
  -- the event's objects may arrive in another order. The receiver expects the token that the
  -- publisher issues for the subscription, which has no blanks around it, the timestamp is within
  -- its window, no hook is set, and the event names the subscription and has a true id that was not
  -- seen. Then the delivery is acknowledged with status 204 and its event and id are kept.
  pub accept_webhook-headers_of :
      Signs crypto
      → (key : Private) (timestamp : Text) (event event' : Fields) (id : Json)
        (moment : Moment Public) (r : EventReceiver)
      → SameFields event event'
      → moment.resolve_key (str env.kid) ≡ ok (crypto.public_key key)
      → within_skew setup moment.now timestamp ≡ true
      → setup.on_event ≡ none
      → ((t : Text) → token_for env cfg sub ≡ some t → setup.strip t ≡ t)
      → get sub.subscription_id r.delivery_tokens ≡ token_for env cfg sub
      → get_field (text "a2asubscription") event' ≡ some (str sub.subscription_id)
      → get_field (text "id") event' ≡ some id
      → truthy id ≡ true
      → is_seen id r.seen ≡ ok false
      → accept_webhook crypto setup moment
          (headers_of env cfg sub (sign crypto key timestamp event) timestamp)
          (obj event')
          r
        ≡ (ok (accepted 204), keep id event' r)
  unfolding accept accept_with accept_id accept_new
  accept_webhook-headers_of signs key timestamp event event' id moment r same resolved timely
        unhooked plain expects names has filled fresh =
      let signature = sign crypto key timestamp event in
      let token =
        token-expected (token_for env cfg sub) plain sub.subscription_id r.delivery_tokens
          expects in
      let verified =
        verify_json-str crypto setup (crypto.public_key key) timestamp event' signature
        ∙ ap ok (verify-sign crypto signs key timestamp event event' same) in
      accept-with_token (token_for env cfg sub) moment signature timestamp env.kid
        sub.subscription_id (obj event') r
      ∙ rw (accept, names)
          (rw (accept, token)
            (rw (accept, resolved)
              (rw (accept_with, verified)
                (rw (accept_with, timely)
                  (rw has (
                    rw (accept_id, filled)
                      (rw (accept_id, fresh) (rw (accept_new, unhooked) refl))))))))
