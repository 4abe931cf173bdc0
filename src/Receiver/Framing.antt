-- ===== src/Receiver/Framing.antt =====
-- The two delivery modes of receiver.py: a webhook's headers and body, and an agent's message.
use a2a_events_python.Common.{
  Option, none, some, [], ◌∷◌, if◌then◌else◌, Text, text, text_eq, Dict, get_or, put,
}
use a2a_events_python.Json.{Json, null, str, arr, obj, cons, get_field}
use a2a_events_python.Exec.{Exec, ◌>>=◌, pure, lift}
use a2a_events_python.HttpDelivery.{DeliveryResult}
use a2a_events_python.Auth.{partition_space}
use a2a_events_python.Signing.{Crypto}
use a2a_events_python.Receiver.{EventReceiver, Setup, Moment, refuse, dict_of, accept}

-- {k.lower(): v for k, v in headers.items()}
unfoldable pub lowered : (Text → Text) → Dict Text → Dict Text → Dict Text
lowered lower [] done = done
lowered lower ((k, v) ∷ headers) done = lowered lower headers (put (lower k) v done)

-- token.strip() if scheme.lower() == "bearer" else None
unfoldable pub presented : Setup → Text → Json
unfolding partition_space
presented setup header =
    let (scheme, token) = partition_space header in
    if text_eq (setup.lower scheme) (text "bearer") then str (setup.strip token) else null

-- EXTENSION_METADATA_KEY
abbrev pub extension_uri : Text
extension_uri = text "https://a2a-events.github.io/a2a-events/extensions/events/v1"

-- value[key] and value[0], without the exceptions that the source catches together
abbrev pub subscript : Text → Json → Option Json
subscript key (obj fs) = get_field key fs
subscript key _ = none

abbrev pub first : Json → Option Json
first (arr (cons x _)) = some x
first _ = none

abbrev pub then_some : Option Json → (Json → Option Json) → Option Json
then_some none f = none
then_some (some x) f = f x

abbrev pub event_of : Json → Option Json
event_of message =
    then_some (then_some (subscript (text "parts") message) first) (subscript (text "data"))

abbrev pub metadata_of : Json → Option Json
metadata_of message = then_some (subscript (text "metadata") message) (subscript extension_uri)

abbrev pub or_default : Json → Option Json → Json
or_default d none = d
or_default d (some v) = v

module _ {Private Public : Type 0} (crypto : Crypto Private Public) (setup : Setup) where
  unfoldable pub accept_webhook :
      Moment Public → Dict Text → Json → Exec EventReceiver DeliveryResult
  unfolding lowered presented
  accept_webhook moment headers body =
      let h = lowered setup.lower headers [] in
      accept crypto setup moment body (str (get_or [] (text "a2a-event-key-id") h))
        (str (get_or [] (text "a2a-event-timestamp") h))
        (str (get_or [] (text "a2a-event-signature") h))
        (presented setup (get_or [] (text "authorization") h))

  abbrev accept_envelope :
      Moment Public → Option Json → Option Json → Exec EventReceiver DeliveryResult
  accept_envelope moment (some event) (some meta) = do
    fs ← lift (dict_of meta)
    accept crypto setup moment event (or_default (str []) (get_field (text "keyId") fs))
        (or_default (str []) (get_field (text "timestamp") fs))
        (or_default (str []) (get_field (text "signature") fs))
        (or_default null (get_field (text "deliveryToken") fs))
  accept_envelope moment _ _ = pure (refuse 400 (text "malformed envelope"))

  unfoldable pub accept_a2a_message : Moment Public → Json → Exec EventReceiver DeliveryResult
  accept_a2a_message moment message =
      let inner = subscript (text "message") message in
      accept_envelope moment (then_some inner event_of) (then_some inner metadata_of)
