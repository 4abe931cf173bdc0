-- ===== src/HttpDelivery.antt =====
-- runtime/http_delivery.py, and `DeliveryResult` of runtime/contracts.py. The HTTP client is httpx:
-- what it gives back is an argument, `none` for a `RequestError`.
pub mod Outcomes
use a2a_events_python.Common.{
  ℕ, Bool, true, false, not, ◌&&◌, ◌||◌, Option, none, some, if◌then◌else◌, leb, ltb, ◌==◌, Text,
  text,
}
use a2a_events_python.Json.{Json, bool, str, obj, Fields, get_field, truthy, end, null}
use a2a_events_python.Errors.{Result, ok, raise, attribute_error, ◌>>=◌}

pub record DeliveryResult : Type 0 where
  pub ack : Bool
  pub retry : Bool
  pub status_code : Option ℕ
  pub reason : Option Text

unfoldable pub result_from_status : ℕ → DeliveryResult
result_from_status status =
    if leb 200 status && ltb status 300
    then record { ack = true; retry = true; status_code = some status; reason = none }
    else record {
      ack = false;
      retry = status == 408 || status == 429 || leb 500 status;
      status_code = some status;
      reason = none;
    }

-- a failed request
abbrev pub unreachable : Text → DeliveryResult
unreachable reason = record { ack = false; retry = true; status_code = none; reason = some reason }

-- What httpx returns: a status, and the body as JSON if it is JSON.
pub record Response : Type 0 where
  pub status_code : ℕ
  pub json : Option Json

pub data Reply : Type 0 where
  request_error : Text → Reply
  response : Response → Reply

unfoldable pub send_webhook : Reply → DeliveryResult
unfolding result_from_status
send_webhook (request_error message) = unreachable message
send_webhook (response resp) = result_from_status resp.status_code

abbrev message_of : Option Json → Option Text
message_of (some (str s)) = some s
message_of _ = none

-- bool(result.get("retry", False))
abbrev retry_of : Option Json → Bool
retry_of none = false
retry_of (some v) = truthy v

-- result.get("ack") is False
abbrev nacked : Option Json → Bool
nacked (some (bool false)) = true
nacked _ = false

abbrev acked : ℕ → DeliveryResult
acked status = record { ack = true; retry = true; status_code = some status; reason = none }

-- `payload.get("result") or {}`; a true value that is no dict has no `get`
abbrev result_fields : Option Json → Result Fields
result_fields none = ok end
result_fields (some (obj fs)) = ok fs
result_fields (some v) = if truthy v then raise attribute_error else ok end

abbrev error_result : Json → Result DeliveryResult
error_result (obj fs) = ok (record {
  ack = false;
  retry = true;
  status_code = none;
  reason = message_of (get_field (text "message") fs);
})
error_result _ = raise attribute_error

abbrev ack_result : ℕ → Fields → DeliveryResult
ack_result status fs =
    if nacked (get_field (text "ack") fs)
    then record {
      ack = false;
      retry = retry_of (get_field (text "retry") fs);
      status_code = none;
      reason = none;
    }
    else acked status

-- A JSON body that is no dict has no `get`; `"error" in payload` on a list or a text is not read.
unfoldable pub read_payload : ℕ → Json → Result DeliveryResult
read_payload status (obj fs) = elim (get_field (text "error") fs) [
  | some e ↦ error_result e
  | none ↦ do result ← result_fields (get_field (text "result") fs); ok (ack_result status result)
]
read_payload status _ = raise attribute_error

unfoldable pub send_a2a_message : Reply → Result DeliveryResult
unfolding result_from_status read_payload
send_a2a_message (request_error message) = ok (unreachable message)
send_a2a_message (response resp) =
    if not (leb 200 resp.status_code && ltb resp.status_code 300)
    then ok (result_from_status resp.status_code)
    else elim resp.json [
      | none ↦ ok (unreachable (text "non-JSON response from A2A endpoint"))
      | some payload ↦ read_payload resp.status_code payload
    ]
