-- ===== src/Examples/Deliveries.antt =====
-- A delivery to a subscriber, and the same delivery again.
use a2a_events_python.Common.{
  ◌+◌, ◌≡◌, refl, ◌⊎◌, Bool, true, false, ◌&&◌, none, some, [], ◌∷◌, map, leb, if◌then◌else◌, Text,
  text, text_eq, get,
}
use a2a_events_python.Json.{Json, str, null, obj, get_field, truthy}
use a2a_events_python.Errors.{ok}
use a2a_events_python.Cursor.{text_lt}
use a2a_events_python.Canonical.{canon}
use a2a_events_python.Signing.{sign, without_prefix}
use a2a_events_python.Signing.Base64.{b64url, b64url_decode}
use a2a_events_python.Publisher.Send.{headers_of}
use a2a_events_python.Receiver.{
  Setup, Moment, init, keep, accept, accepted, within_skew, is_seen, accept_new, accept_id,
  accept_with, verify_json, delivery_token_ok,
}
use a2a_events_python.Receiver.Trusted.{Trusted, Refused, accept-Trusted, acked}
use a2a_events_python.Receiver.Once.{Delivery, IsValid, accept_all, accept_all_once}
use a2a_events_python.ReceiveStatus.Answered.{Agreed, accept-Agreed}
use a2a_events_python.Receiver.Framing.{accept_webhook}
use a2a_events_python.Receiver.Delivered.{Lowers, accept_webhook-headers_of}
use a2a_events_python.Examples
use a2a_events_python.Examples.{cfg, env_with, sub, sub_id}
use a2a_events_python.Examples.Keys.{toy, toy-Signs, event, event_turned, event-SameFields}

-- str.lower on ASCII
abbrev lower : Text → Text
lower = map (λ c. if leb 65 c && leb c 90 then c + 32 else c)

abbrev setup : Setup
setup = record {
  max_skew = some 300_000_000;
  on_event = none;
  lower = lower;
  strip = λ s. s;
  fromisoformat = λ s. some 10;
}

abbrev moment : Moment Bool
moment = record { resolve_key = λ kid. ok true; now = 12 }

lower-Lowers : Lowers setup.lower
lower-Lowers = (refl, refl, refl, refl, refl, refl, refl)

timely : within_skew setup moment.now (text "t1") ≡ true
unfolding within_skew
timely = refl

names_sub : get_field (text "a2asubscription") event_turned ≡ some (str sub_id)
unfolding get_field text_eq
names_sub = refl

names_id : get_field (text "id") event_turned ≡ some (str (text "evt_1"))
unfolding get_field text_eq
names_id = refl

filled : truthy (str (text "evt_1")) ≡ true
unfolding truthy
filled = refl

untokened : get sub_id init.delivery_tokens ≡ none
unfolding get
untokened = refl

unseen : is_seen (str (text "evt_1")) [] ≡ ok false
unfolding is_seen
unseen = refl

accept_webhook-headers_of_example :
    accept_webhook toy setup moment
      (headers_of (env_with Examples.acked) cfg sub (sign toy true (text "t1") event) (text "t1"))
      (obj event_turned)
      init
    ≡ (ok (accepted 204), keep (str (text "evt_1")) event_turned init)
accept_webhook-headers_of_example =
    accept_webhook-headers_of toy setup lower-Lowers (env_with Examples.acked) cfg sub toy-Signs
      true (text "t1") event event_turned (str (text "evt_1")) moment init event-SameFields refl
      timely refl (λ t h. absurd (cc)) untokened names_sub names_id filled unseen

abbrev signature : Json
signature = str (sign toy true (text "t1") event)

accept-Trusted_example :
    Trusted toy setup moment (obj event) (str (text "k1")) (str (text "t1")) signature null init
    ⊎ Refused init (
        accept toy setup moment (obj event) (str (text "k1")) (str (text "t1")) signature null init)
accept-Trusted_example =
    accept-Trusted toy setup moment (obj event) (str (text "k1")) (str (text "t1")) signature null
      init

handled :
    acked
      (accept toy setup moment
        (obj event)
        (str (text "k1"))
        (str (text "t1"))
        signature
        null
        init).0
    ≡ true
unfolding accept accept_with accept_id accept_new get_field text_eq delivery_token_ok get
    verify_json b64url_decode without_prefix sign b64url canon text_lt within_skew truthy is_seen
handled = refl

abbrev delivery : Json → Delivery toy setup
delivery body = record {
  moment = moment;
  body = body;
  key_id = str (text "k1");
  timestamp = str (text "t1");
  signature = signature;
  token = null;
}

accept_all_once_example : IsValid (
    accept_all toy setup
      (delivery (obj event) ∷ delivery null ∷ delivery (obj event_turned) ∷ [])
      init)
accept_all_once_example =
    accept_all_once toy setup
      (delivery (obj event) ∷ delivery null ∷ delivery (obj event_turned) ∷ [])

accept-Agreed_example :
    Agreed
      (accept toy setup moment
        (obj event)
        (str (text "k1"))
        (str (text "t1"))
        signature
        null
        init).0
accept-Agreed_example =
    accept-Agreed toy setup refl moment (obj event) (str (text "k1")) (str (text "t1")) signature
      null init
