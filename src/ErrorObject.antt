-- ===== src/ErrorObject.antt =====
-- errors.py, from the code table on: the numbers of a code, the error object, and the HTTP status of
-- an error object.
pub mod Status
use a2a_events_python.Common.{
  ℕ, Bool, true, false, ◌||◌, Option, none, some, List, [], ◌∷◌, if◌then◌else◌, Text, text, text_eq,
  ℤ, neg,
}
use a2a_events_python.Json.{
  Json, str, int, obj, Fields, field, end, get_field, merge, truthy, scalar_eq,
}
use a2a_events_python.Errors.{
  Result, ok, raise, attribute_error, ErrorCode, extension_not_supported, topic_not_found,
  topic_not_authorized, selector_not_supported, invalid_selector, invalid_cursor, cursor_expired,
  subscription_not_found, subscription_expired, delivery_mode_not_supported,
  subscriber_card_unreachable, subscriber_card_invalid, delivery_endpoint_not_declared,
  delivery_endpoint_blocked, signature_invalid, replay_not_supported, rate_limited, lease_too_long,
  lease_too_short, ◌>>=◌,
}

abbrev pub Code : Type 0
Code = ErrorCode

-- ErrorCode.value
unfoldable pub value : Code → Text
value extension_not_supported = text "EXTENSION_NOT_SUPPORTED"
value topic_not_found = text "TOPIC_NOT_FOUND"
value topic_not_authorized = text "TOPIC_NOT_AUTHORIZED"
value selector_not_supported = text "SELECTOR_NOT_SUPPORTED"
value invalid_selector = text "INVALID_SELECTOR"
value invalid_cursor = text "INVALID_CURSOR"
value cursor_expired = text "CURSOR_EXPIRED"
value subscription_not_found = text "SUBSCRIPTION_NOT_FOUND"
value subscription_expired = text "SUBSCRIPTION_EXPIRED"
value delivery_mode_not_supported = text "DELIVERY_MODE_NOT_SUPPORTED"
value subscriber_card_unreachable = text "SUBSCRIBER_CARD_UNREACHABLE"
value subscriber_card_invalid = text "SUBSCRIBER_CARD_INVALID"
value delivery_endpoint_not_declared = text "DELIVERY_ENDPOINT_NOT_DECLARED"
value delivery_endpoint_blocked = text "DELIVERY_ENDPOINT_BLOCKED"
value signature_invalid = text "SIGNATURE_INVALID"
value replay_not_supported = text "REPLAY_NOT_SUPPORTED"
value rate_limited = text "RATE_LIMITED"
value lease_too_long = text "LEASE_TOO_LONG"
value lease_too_short = text "LEASE_TOO_SHORT"

abbrev pub all_codes : List Code
all_codes =
    extension_not_supported ∷ topic_not_found ∷ topic_not_authorized ∷ selector_not_supported
    ∷ invalid_selector ∷ invalid_cursor ∷ cursor_expired ∷ subscription_not_found
    ∷ subscription_expired ∷ delivery_mode_not_supported ∷ subscriber_card_unreachable
    ∷ subscriber_card_invalid ∷ delivery_endpoint_not_declared ∷ delivery_endpoint_blocked
    ∷ signature_invalid ∷ replay_not_supported ∷ rate_limited ∷ lease_too_long ∷ lease_too_short
    ∷ []

unfoldable pub jsonrpc_code : Code → ℤ
jsonrpc_code extension_not_supported = neg 32001
jsonrpc_code topic_not_found = neg 32010
jsonrpc_code topic_not_authorized = neg 32011
jsonrpc_code selector_not_supported = neg 32012
jsonrpc_code invalid_selector = neg 32013
jsonrpc_code invalid_cursor = neg 32014
jsonrpc_code cursor_expired = neg 32016
jsonrpc_code subscription_not_found = neg 32020
jsonrpc_code subscription_expired = neg 32021
jsonrpc_code delivery_mode_not_supported = neg 32030
jsonrpc_code subscriber_card_unreachable = neg 32031
jsonrpc_code subscriber_card_invalid = neg 32032
jsonrpc_code delivery_endpoint_not_declared = neg 32033
jsonrpc_code delivery_endpoint_blocked = neg 32034
jsonrpc_code signature_invalid = neg 32040
jsonrpc_code replay_not_supported = neg 32050
jsonrpc_code rate_limited = neg 32060
jsonrpc_code lease_too_long = neg 32070
jsonrpc_code lease_too_short = neg 32071

unfoldable pub http_status : Code → ℕ
http_status extension_not_supported = 400
http_status topic_not_found = 404
http_status topic_not_authorized = 403
http_status selector_not_supported = 400
http_status invalid_selector = 400
http_status invalid_cursor = 400
http_status cursor_expired = 409
http_status subscription_not_found = 404
http_status subscription_expired = 409
http_status delivery_mode_not_supported = 400
http_status subscriber_card_unreachable = 502
http_status subscriber_card_invalid = 400
http_status delivery_endpoint_not_declared = 400
http_status delivery_endpoint_blocked = 403
http_status signature_invalid = 401
http_status replay_not_supported = 400
http_status rate_limited = 429
http_status lease_too_long = 400
http_status lease_too_short = 400

-- ErrorCode(symbolic), `none` for its ValueError
unfoldable pub code_in : List Code → Text → Option Code
unfolding value
code_in [] symbolic = none
code_in (c ∷ codes) symbolic = if text_eq (value c) symbolic then some c else code_in codes symbolic

abbrev pub code_of : Json → Option Code
code_of (str symbolic) = code_in all_codes symbolic
code_of _ = none

-- `error.get("code")` against the numbers of malformed requests
abbrev numeric_status : Option Json → ℕ
numeric_status none = 500
numeric_status (some v) =
    if scalar_eq v (int (neg 32600))
      || scalar_eq v (int (neg 32602))
      || scalar_eq v (int (neg 32700))
    then 400
    else if scalar_eq v (int (neg 32601))
    then 404
    else 500

-- `error.get("data") or {}`; a true value that is no dict has no `get`
abbrev data_of : Option Json → Result Fields
data_of none = ok end
data_of (some (obj fs)) = ok fs
data_of (some v) = if truthy v then raise attribute_error else ok end

abbrev status_or : ℕ → Option Json → ℕ
status_or default none = default
status_or default (some symbolic) = elim (code_of symbolic) [
  | none ↦ default
  | some c ↦ http_status c
]

unfoldable pub http_status_for_error : Fields → Result ℕ
unfolding code_in http_status
http_status_for_error error = do
  fields ← data_of (get_field (text "data") error)
  ok (status_or (numeric_status (get_field (text "code") error)) (get_field (text "code") fields))

unfoldable pub to_error_object : Code → Text → Fields → Fields
unfolding jsonrpc_code value
to_error_object code message details = field (text "code") (int (jsonrpc_code code)) (
    field (text "message") (str message)
      (field (text "data") (obj (merge (field (text "code") (str (value code)) end) details)) end))
