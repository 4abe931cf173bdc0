-- ===== src/JsonRpc/Dispatched.antt =====
-- What `handle` does with a well-formed request for a method of the protocol.
use a2a_events_python.Common.{◌≡◌, true, Option, some, any_by, Text, text, text_eq}
use a2a_events_python.Json.{Json, str, Fields, field, end, get_field, scalar_eq}
use a2a_events_python.Methods.{canonical_methods}
use a2a_events_python.JsonRpc.{Operations, params_of, dispatch, answer, handle, handle_method}

abbrev pub request_with : Text → Text → Json → Fields
request_with id method params = field (text "jsonrpc") (str (text "2.0")) (
    field (text "id") (str id)
      (field (text "method") (str method) (field (text "params") params end)))

module _ {S Sub Sel Delivery Caller : Type 0} (ops : Operations S Sub Sel Delivery Caller) where
  handle_method-known :
      (req_id : Json) (method : Text) (params : Json) (caller : Option Caller) (s : S)
      → any_by (λ n. text_eq n method) canonical_methods ≡ true
      → handle_method ops req_id (str method) params caller s ≡ (
        answer ops req_id (dispatch ops method params caller s).0,
        (dispatch ops method params caller s).1,
      )
  unfolding handle_method
  handle_method-known req_id method params caller s known = rw (handle_method, known)

  pub handle-dispatch :
      (id method : Text) (params : Json) (caller : Option Caller) (s : S)
      → any_by (λ n. text_eq n method) canonical_methods ≡ true
      → handle ops (request_with id method params) caller s ≡ (
        answer ops (str id) (dispatch ops method (params_of (some params)) caller s).0,
        (dispatch ops method (params_of (some params)) caller s).1,
      )
  unfolding handle get_field text_eq scalar_eq
  handle-dispatch id method params caller s known =
      handle_method-known (str id) method (params_of (some params)) caller s known
