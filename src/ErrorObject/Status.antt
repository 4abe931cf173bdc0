-- ===== src/ErrorObject/Status.antt =====
-- The HTTP status of an error object.
use a2a_events_python.Common.{
  ℕ, ◌≡◌, ◌∙◌, refl, ap, arith, none, some, if◌then◌else◌, Text, text, text_eq, text_eq_iff,
  Bool-cases, inl, inr,
}
use a2a_events_python.Json.{Json, str, Fields, field, end, get_field, put_field, merge}
use a2a_events_python.Errors.{
  ok, extension_not_supported, topic_not_found, topic_not_authorized, selector_not_supported,
  invalid_selector, invalid_cursor, cursor_expired, subscription_not_found, subscription_expired,
  delivery_mode_not_supported, subscriber_card_unreachable, subscriber_card_invalid,
  delivery_endpoint_not_declared, delivery_endpoint_blocked, signature_invalid,
  replay_not_supported, rate_limited, lease_too_long, lease_too_short,
}
use a2a_events_python.ErrorObject.{
  Code, code_of, status_or, all_codes, code_in, http_status, http_status_for_error, to_error_object,
  value,
}

code_in-value : (c : Code) → code_in all_codes (value c) ≡ some c
unfolding code_in value text_eq
code_in-value extension_not_supported = refl
code_in-value topic_not_found = refl
code_in-value topic_not_authorized = refl
code_in-value selector_not_supported = refl
code_in-value invalid_selector = refl
code_in-value invalid_cursor = refl
code_in-value cursor_expired = refl
code_in-value subscription_not_found = refl
code_in-value subscription_expired = refl
code_in-value delivery_mode_not_supported = refl
code_in-value subscriber_card_unreachable = refl
code_in-value subscriber_card_invalid = refl
code_in-value delivery_endpoint_not_declared = refl
code_in-value delivery_endpoint_blocked = refl
code_in-value signature_invalid = refl
code_in-value replay_not_supported = refl
code_in-value rate_limited = refl
code_in-value lease_too_long = refl
code_in-value lease_too_short = refl

get_field-put_field :
    (k j : Text) (v : Json) (fs : Fields)
    → get_field j (put_field k v fs) ≡ (if text_eq k j then some v else get_field j fs)
unfolding get_field put_field
get_field-put_field k j v end = refl
get_field-put_field k j v (field i w fs) =
    ground (arith, text_eq_iff k j, text_eq_iff i k, text_eq_iff i j, get_field-put_field k j v fs)

get_field-merge :
    (k : Text) (fs gs : Fields) → get_field k gs ≡ none → get_field k (merge fs gs) ≡ get_field k fs
unfolding merge get_field
get_field-merge k fs end h = refl
get_field-merge k fs (field j v gs) h = elim (Bool-cases (text_eq j k)) [
  | inl same ↦ absurd (let h' = rw same at h in cc)
  | inr other ↦
      let rest = get_field-merge k (put_field j v fs) gs (rw other at h) in
      rw rest (rw (get_field-put_field j k v fs) (rw other refl))
]

status_or-value : (d : ℕ) (c : Code) → status_or d (some (str (value c))) ≡ http_status c
status_or-value d c = rw (code_in-value c, status_or, code_of) refl

code_there : (x : Json) → get_field (text "code") (field (text "code") x end) ≡ some x
unfolding get_field text_eq
code_there x = refl

-- The error object of an exception whose details have no entry "code" has the HTTP status of the
-- exception's code.
pub http_status_for_error-to_error_object :
    (code : Code) (message : Text) (details : Fields)
    → get_field (text "code") details ≡ none
    → http_status_for_error (to_error_object code message details) ≡ ok (http_status code)
unfolding http_status_for_error to_error_object get_field text_eq
http_status_for_error-to_error_object code message details plain =
    let merged =
      get_field-merge (text "code") (field (text "code") (str (value code)) end) details plain in
    rw (merged ∙ code_there (str (value code)), http_status_for_error)
      (ap ok (status_or-value _ code))
