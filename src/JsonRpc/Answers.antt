-- ===== src/JsonRpc/Answers.antt =====
-- What a response holds, and what a refused request leaves.
use mathlib.Core.Path.{subst}
use a2a_events_python.Common.{
  ◌≡◌, refl, ◌⊎◌, inl, inr, Option, none, some, Option-cases, Bool-cases, any_by, if◌then◌else◌,
  Text, text, text_eq,
}
use a2a_events_python.Json.{Json, null, bool, int, float, str, arr, obj, Fields, get_field}
use a2a_events_python.Errors.{
  Result, ok, raise, protocol, value_error, key_error, type_error, attribute_error, index_error,
  assertion_error, out_of_fuel, foreign,
}
use a2a_events_python.Methods.{canonical_methods}
use a2a_events_python.JsonRpc.{
  Operations, params_of, dispatch, answer, id_of, is_version, handle_method, handle,
}

abbrev pub HasResult : Fields → Type 0
HasResult fs =
    (r : Json) × (get_field (text "result") fs ≡ some r) × (get_field (text "error") fs ≡ none)

abbrev pub HasError : Fields → Type 0
HasError fs =
    (e : Fields) × (get_field (text "error") fs ≡ some (obj e))
    × (get_field (text "result") fs ≡ none)

-- The version and the id of the request, and either a result or an error object.
abbrev pub IsResponse : Json → Fields → Type 0
IsResponse req_id fs =
    (get_field (text "jsonrpc") fs ≡ some (str (text "2.0")))
    × (get_field (text "id") fs ≡ some req_id)
    × (HasResult fs ⊎ HasError fs)

-- What a call returns, if it returns, is a response.
abbrev Answers : {S : Type 0} → Json → Result Fields × S → Type 0
Answers req_id (ok fs, s) = IsResponse req_id fs
Answers req_id (raise e, s) = Unit

module _ {S Sub Sel Delivery Caller : Type 0} (ops : Operations S Sub Sel Delivery Caller) where
  answer-Answers :
      (req_id : Json) (r : Result Json) (s : S) → Answers req_id (answer ops req_id r, s)
  unfolding answer get_field text_eq
  answer-Answers req_id (ok r) s = (refl, refl, inl (r, refl, refl))
  answer-Answers req_id (raise (protocol code)) s = (refl, refl, inr (_, refl, refl))
  answer-Answers req_id (raise key_error) s = (refl, refl, inr (_, refl, refl))
  answer-Answers req_id (raise type_error) s = (refl, refl, inr (_, refl, refl))
  answer-Answers req_id (raise value_error) s = (refl, refl, inr (_, refl, refl))
  answer-Answers req_id (raise index_error) s = tt
  answer-Answers req_id (raise attribute_error) s = tt
  answer-Answers req_id (raise assertion_error) s = tt
  answer-Answers req_id (raise out_of_fuel) s = tt
  answer-Answers req_id (raise (foreign n)) s = tt

  handle_method-Answers :
      (req_id method params : Json) (caller : Option Caller) (s : S)
      → Answers req_id (handle_method ops req_id method params caller s)
  unfolding handle_method get_field text_eq
  handle_method-Answers req_id (str m) params caller s =
      elim (Bool-cases (any_by (λ n. text_eq n m) canonical_methods)) [
        | inl known ↦ rw (handle_method, known) (answer-Answers req_id _ _)
        | inr unknown ↦ rw (handle_method, unknown) ((refl, refl, inr (_, refl, refl)))
      ]
  handle_method-Answers req_id (arr _) params caller s = tt
  handle_method-Answers req_id (obj _) params caller s = tt
  handle_method-Answers req_id null params caller s = (refl, refl, inr (_, refl, refl))
  handle_method-Answers req_id (bool _) params caller s = (refl, refl, inr (_, refl, refl))
  handle_method-Answers req_id (int _) params caller s = (refl, refl, inr (_, refl, refl))
  handle_method-Answers req_id (float _ _) params caller s = (refl, refl, inr (_, refl, refl))

  handle-Answers :
      (request : Fields) (caller : Option Caller) (s : S)
      → Answers (id_of request) (handle ops request caller s)
  unfolding handle get_field text_eq
  handle-Answers request caller s =
      elim (Bool-cases (is_version (get_field (text "jsonrpc") request))) [
        | inr other ↦ rw (handle, other) ((refl, refl, inr (_, refl, refl)))
        | inl version ↦ elim (Option-cases (get_field (text "method") request)) [
          | inl missing ↦ rw (handle, version, missing) ((refl, refl, inr (_, refl, refl)))
          | inr (method, there) ↦
              rw (handle, version, there) (handle_method-Answers _ method _ caller s)
        ]
      ]

-- Whatever the request and the publisher, a response has the version 2.0, the id of the request
-- (null for none), and either a result or an error object, never both.
pub handle-IsResponse :
    {S Sub Sel Delivery Caller : Type 0} (ops : Operations S Sub Sel Delivery Caller)
    (request : Fields) (caller : Option Caller) (s s' : S) (response : Fields)
    → handle ops request caller s ≡ (ok response, s')
    → IsResponse (id_of request) response
handle-IsResponse ops request caller s s' response h =
    subst (Answers (id_of request)) h (handle-Answers ops request caller s)

-- The method that a request asks for, if the request is valid and the method one of the protocol.
abbrev pub method_in : Json → Option Text
method_in (str m) = if any_by (λ n. text_eq n m) canonical_methods then some m else none
method_in _ = none

abbrev pub served : Fields → Option Text
served request =
    if is_version (get_field (text "jsonrpc") request)
    then elim (get_field (text "method") request) [ none ↦ none | some v ↦ method_in v ]
    else none

module _ {S Sub Sel Delivery Caller : Type 0} (ops : Operations S Sub Sel Delivery Caller) where
  -- A request that names no method leaves the publisher as it was. One that does is answered with
  -- what the method returns or raises, and leaves the publisher as the method does.
  abbrev pub AsServed : Option Text → Json → Json → Option Caller → S → Result Fields × S → Type 0
  AsServed none req_id params caller s x = x.1 ≡ s
  AsServed (some m) req_id params caller s x =
      x ≡ (answer ops req_id (dispatch ops m params caller s).0, (dispatch ops m params caller s).1)

  handle_method-AsServed :
      (req_id method params : Json) (caller : Option Caller) (s : S)
      → AsServed
          (method_in method)
          req_id
          params
          caller
          s
          (handle_method ops req_id method params caller s)
  unfolding handle_method
  handle_method-AsServed req_id (str m) params caller s =
      elim (Bool-cases (any_by (λ n. text_eq n m) canonical_methods)) [
        | inl known ↦ rw (handle_method, known) refl
        | inr unknown ↦ rw (handle_method, unknown) refl
      ]
  handle_method-AsServed req_id (arr _) params caller s = refl
  handle_method-AsServed req_id (obj _) params caller s = refl
  handle_method-AsServed req_id null params caller s = refl
  handle_method-AsServed req_id (bool _) params caller s = refl
  handle_method-AsServed req_id (int _) params caller s = refl
  handle_method-AsServed req_id (float _ _) params caller s = refl

  -- A request changes the publisher only if it is valid and names a method of the protocol, and then
  -- only as that method does: what it answers, or raises, is made from what the method returned or
  -- raised.
  pub handle-served :
      (request : Fields) (caller : Option Caller) (s : S)
      → AsServed
          (served request)
          (id_of request)
          (params_of (get_field (text "params") request))
          caller
          s
          (handle ops request caller s)
  unfolding handle
  handle-served request caller s =
      elim (Bool-cases (is_version (get_field (text "jsonrpc") request))) [
        | inr other ↦ rw (handle, other) refl
        | inl version ↦ elim (Option-cases (get_field (text "method") request)) [
          | inl missing ↦ rw (handle, version, missing) refl
          | inr (method, there) ↦
              rw (handle, version, there) (handle_method-AsServed _ method _ caller s)
        ]
      ]
