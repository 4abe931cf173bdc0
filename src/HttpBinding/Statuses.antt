-- ===== src/HttpBinding/Statuses.antt =====
-- How a route answers what its method did.
use a2a_events_python.Common.{
  ℕ, ◌≡◌, refl, ◌∙◌, ap, true, Option, none, some, any_by, Text, text, text_eq, neg, ◌++◌,
}
use a2a_events_python.Json.{Json, str, obj, get_field, scalar_eq}
use a2a_events_python.Errors.{
  Exn, Result, ok, raise, protocol, value_error, key_error, type_error, attribute_error,
  index_error, assertion_error, out_of_fuel, foreign,
}
use a2a_events_python.Exec.{continue, lift}
use a2a_events_python.ErrorObject.{Code, http_status, to_error_object}
use a2a_events_python.ErrorObject.Status.{http_status_for_error-to_error_object}
use a2a_events_python.Methods.{canonical_methods}
use a2a_events_python.JsonRpc.{Operations, params_of, dispatch, answer, error_fields}
use a2a_events_python.JsonRpc.Dispatched.{handle-dispatch}
use a2a_events_python.HttpBinding.{HttpResponse, render, rpc_over_http}

module _ {S Sub Sel Delivery Caller : Type 0} (ops : Operations S Sub Sel Delivery Caller) where
  abbrev pub bad_params : Exn → HttpResponse
  bad_params e = record {
    content = obj (error_fields (neg 32602) (text "Invalid params: " ++ ops.message e) none);
    status_code = 400;
  }

  -- The answer to a method that did this.
  abbrev pub http_answer : ℕ → Result Json × S → Result HttpResponse × S
  http_answer ok_status (ok r, s) = (ok (record { content = r; status_code = ok_status }), s)
  http_answer ok_status (raise (protocol code), s) = (
    ok (record {
      content = obj (to_error_object code (ops.message (protocol code)) (ops.details code));
      status_code = http_status code;
    }),
    s,
  )
  http_answer ok_status (raise key_error, s) = (ok (bad_params key_error), s)
  http_answer ok_status (raise type_error, s) = (ok (bad_params type_error), s)
  http_answer ok_status (raise value_error, s) = (ok (bad_params value_error), s)
  http_answer ok_status (raise index_error, s) = (raise index_error, s)
  http_answer ok_status (raise attribute_error, s) = (raise attribute_error, s)
  http_answer ok_status (raise assertion_error, s) = (raise assertion_error, s)
  http_answer ok_status (raise out_of_fuel, s) = (raise out_of_fuel, s)
  http_answer ok_status (raise (foreign n), s) = (raise (foreign n), s)

  answer-http_answer :
      (ok_status : ℕ) (x : Result Json × S)
      → ((code : Code) → get_field (text "code") (ops.details code) ≡ none)
      → continue (λ fs. lift (render ok_status fs)) (answer ops (str (text "http")) x.0, x.1)
        ≡ http_answer ok_status x
  unfolding render answer get_field text_eq scalar_eq to_error_object
  answer-http_answer ok_status (ok r, s) plain = refl
  answer-http_answer ok_status (raise (protocol code), s) plain =
      ap
        (λ status. (
          elim status [
            | ok n ↦ ok (record {
              content = obj (to_error_object code (ops.message (protocol code)) (ops.details code));
              status_code = n;
            })
            | raise e ↦ raise e
          ],
          s,
        ))
        (http_status_for_error-to_error_object code (ops.message (protocol code)) (ops.details code)
          (plain code))
  answer-http_answer ok_status (raise key_error, s) plain = refl
  answer-http_answer ok_status (raise type_error, s) plain = refl
  answer-http_answer ok_status (raise value_error, s) plain = refl
  answer-http_answer ok_status (raise index_error, s) plain = refl
  answer-http_answer ok_status (raise attribute_error, s) plain = refl
  answer-http_answer ok_status (raise assertion_error, s) plain = refl
  answer-http_answer ok_status (raise out_of_fuel, s) plain = refl
  answer-http_answer ok_status (raise (foreign n), s) plain = refl

  -- A route over a method of the protocol answers as the method did: with its result, with the error
  -- object of a protocol error under the HTTP status of the error's code, with 400 where the
  -- parameters are at fault, and with no answer where another exception passes through. The state
  -- is what the method left. The details of an error have no entry "code" of their own.
  pub rpc_over_http-dispatch :
      (method : Text) (params : Json) (ok_status : ℕ) (caller : Option Caller) (s : S)
      → any_by (λ n. text_eq n method) canonical_methods ≡ true
      → ((code : Code) → get_field (text "code") (ops.details code) ≡ none)
      → rpc_over_http ops method params ok_status caller s
        ≡ http_answer ok_status (dispatch ops method (params_of (some params)) caller s)
  unfolding rpc_over_http
  rpc_over_http-dispatch method params ok_status caller s known plain =
      ap (continue (λ fs. lift (render ok_status fs)))
        (handle-dispatch ops (text "http") method params caller s known)
      ∙ answer-http_answer ok_status (dispatch ops method (params_of (some params)) caller s) plain
