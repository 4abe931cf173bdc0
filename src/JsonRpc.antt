-- ===== src/JsonRpc.antt =====
-- jsonrpc.py: JSON-RPC requests over a publisher. The publisher is an interface here:
-- its methods take the JSON that a request holds, as Python's do. So are pydantic's validation and
-- dumping, and the texts and details of an exception, which `Exn` leaves out.
pub mod Answers
pub mod Dispatched
use a2a_events_python.Common.{
  Bool, false, not, Option, none, some, List, [], ◌∷◌, ◌++◌, any_by, if◌then◌else◌, Text, text,
  text_eq, ℤ, neg, pos,
}
use a2a_events_python.Json.{
  Json, null, bool, int, float, str, arr, obj, Items, nil, cons, Fields, field, end, get_field,
  put_field, merge, truthy, scalar_eq,
}
use a2a_events_python.Errors.{
  Exn, Result, ok, raise, protocol, value_error, key_error, type_error, attribute_error,
  index_error, assertion_error, out_of_fuel, foreign, invalid_selector, extension_not_supported,
}
use a2a_events_python.Exec.{Exec, ◌>>=◌, ◌>>◌, pure, throw, lift}
use a2a_events_python.Methods.{
  list_topics_method, subscribe_method, get_subscription_method, list_subscriptions_method,
  renew_subscription_method, delete_subscription_method, replay_method, ack_method,
  list_delivery_attempts_method, canonical_methods,
}
use a2a_events_python.ErrorObject.{Code, value, jsonrpc_code}

-- What `handle` calls: the methods of the publisher, with `none` where pydantic raises its
-- ValidationError.
pub record Operations (S Sub Sel Delivery Caller : Type 0) : Type 0 where
  pub list_topics : Exec S Json
  pub subscribe :
      Json → Json → Delivery → Option Sel → Json → Json → Json → Option Caller → Exec S Sub
  pub get_subscription : Json → Exec S Sub
  pub paginate_subscriptions : Json → Json → Exec S (List Sub × Json)
  pub renew : Json → Json → Exec S Sub
  pub delete : Json → Exec S (Unit {0})
  pub replay : Json → Json → Json → Json → Exec S Json
  pub ack : Json → Json → Exec S Sub
  pub list_delivery_attempts : Json → Json → Json → Exec S Json
  pub delivery_auth : Sub → Option Fields
  pub dump : Sub → Fields
  pub validate_selector : Json → Option Sel
  pub validate_delivery : Json → Option Delivery
  -- str(exc) and str(method)
  pub message : Exn → Text
  pub show : Json → Text
  pub details : Code → Fields

-- `_result` and `_error`
unfoldable pub result : Json → Json → Fields
result req_id r =
    field (text "jsonrpc") (str (text "2.0"))
      (field (text "id") req_id (field (text "result") r end))

abbrev pub error_fields : ℤ → Text → Option Json → Fields
error_fields code message none =
    field (text "code") (int code) (field (text "message") (str message) end)
error_fields code message (some d) =
    field (text "code") (int code)
      (field (text "message") (str message) (field (text "data") d end))

unfoldable pub error : Json → ℤ → Text → Option Json → Fields
error req_id code message d =
    field (text "jsonrpc") (str (text "2.0"))
      (field (text "id") req_id (field (text "error") (obj (error_fields code message d)) end))

-- params[key], params.get(key) and params.get(key, default), on any JSON
abbrev pub subscript : Text → Json → Result Json
subscript key (obj fs) = elim (get_field key fs) [ none ↦ raise key_error | some v ↦ ok v ]
subscript key _ = raise type_error

abbrev pub get_or : Json → Text → Json → Result Json
get_or default key (obj fs) = elim (get_field key fs) [ none ↦ ok default | some v ↦ ok v ]
get_or default key _ = raise attribute_error

-- request.get("params") or {}
abbrev pub params_of : Option Json → Json
params_of none = obj end
params_of (some v) = if truthy v then v else obj end

-- dumped.setdefault("delivery", {})["auth"] = auth
abbrev pub attach : Fields → Fields → Result Fields
attach dumped auth = elim (get_field (text "delivery") dumped) [
  | none ↦ ok (put_field (text "delivery") (obj (field (text "auth") (obj auth) end)) dumped)
  | some delivery ↦ put_auth delivery
]
  where
    put_auth : Json → Result Fields
    put_auth (obj fs) =
        ok (put_field (text "delivery") (obj (put_field (text "auth") (obj auth) fs)) dumped)
    put_auth _ = raise type_error

abbrev pub id_of : Fields → Json
id_of request = elim (get_field (text "id") request) [ none ↦ null | some v ↦ v ]

abbrev pub is_version : Option Json → Bool
is_version none = false
is_version (some v) = scalar_eq (str (text "2.0")) v

module _ {S Sub Sel Delivery Caller : Type 0} (ops : Operations S Sub Sel Delivery Caller) where
  unfoldable pub parse_selector : Json → Result (Option Sel)
  parse_selector null = ok none
  parse_selector raw = elim (ops.validate_selector raw) [
    | none ↦ raise (protocol invalid_selector)
    | some selector ↦ ok (some selector)
  ]

  abbrev model_validate : Json → Result Delivery
  model_validate v = elim (ops.validate_delivery v) [ none ↦ raise value_error | some d ↦ ok d ]

  unfoldable pub dump_with_auth : Sub → Result Json
  dump_with_auth sub = elim (ops.delivery_auth sub) [
    | none ↦ ok (obj (ops.dump sub))
    | some auth ↦ elim (attach (ops.dump sub) auth) [ raise e ↦ raise e | ok fs ↦ ok (obj fs) ]
  ]

  abbrev dump_all : List Sub → Items
  dump_all [] = nil
  dump_all (s ∷ ss) = cons (obj (ops.dump s)) (dump_all ss)

  unfoldable pub on_subscribe : Json → Option Caller → Exec S Json
  unfolding parse_selector dump_with_auth
  on_subscribe params caller = do
    raw ← lift (get_or null (text "selector") params)
    selector ← lift (parse_selector raw)
    wanted ← lift (subscript (text "delivery") params)
    delivery ← lift (model_validate wanted)
    url ← lift (subscript (text "subscriberCardUrl") params)
    topics ← lift (subscript (text "topics") params)
    from_cursor ← lift (get_or (str (text "latest")) (text "fromCursor") params)
    lease_seconds ← lift (get_or (int (pos 86400)) (text "leaseSeconds") params)
    metadata ← lift (get_or null (text "metadata") params)
    sub ← ops.subscribe url topics delivery selector from_cursor lease_seconds metadata caller
    lift (dump_with_auth sub)

  unfoldable pub on_list_subscriptions : Json → Exec S Json
  on_list_subscriptions params = do
    page_token ← lift (get_or null (text "pageToken") params)
    page_size ← lift (get_or null (text "pageSize") params)
    page ← ops.paginate_subscriptions page_token page_size
    pure (
        obj (
          field (text "subscriptions") (arr (dump_all page.0))
            (field (text "nextPageToken") page.1 end)))

  unfoldable pub on_renew : Json → Exec S Json
  unfolding dump_with_auth
  on_renew params = do
    id ← lift (subscript (text "subscriptionId") params)
    lease_seconds ← lift (subscript (text "leaseSeconds") params)
    sub ← ops.renew id lease_seconds
    lift (dump_with_auth sub)

  unfoldable pub on_delete : Json → Exec S Json
  on_delete params = do
    id ← lift (subscript (text "subscriptionId") params)
    _ ← ops.delete id
    pure (obj (field (text "subscriptionId") id (field (text "status") (str (text "deleted")) end)))

  unfoldable pub on_replay : Json → Exec S Json
  on_replay params = do
    id ← lift (subscript (text "subscriptionId") params)
    from_cursor ← lift (get_or null (text "fromCursor") params)
    to_cursor ← lift (get_or null (text "toCursor") params)
    limit ← lift (get_or (int (pos 100)) (text "limit") params)
    ops.replay id from_cursor to_cursor limit

  unfoldable pub on_ack : Json → Exec S Json
  on_ack params = do
    id ← lift (subscript (text "subscriptionId") params)
    cursor ← lift (subscript (text "cursor") params)
    sub ← ops.ack id cursor
    pure (obj (ops.dump sub))

  unfoldable pub on_list_delivery_attempts : Json → Exec S Json
  on_list_delivery_attempts params = do
    id ← lift (subscript (text "subscriptionId") params)
    page_token ← lift (get_or null (text "pageToken") params)
    page_size ← lift (get_or null (text "pageSize") params)
    ops.list_delivery_attempts id page_token page_size

  unfoldable pub on_get_subscription : Json → Exec S Json
  unfolding dump_with_auth
  on_get_subscription params = do
    id ← lift (subscript (text "subscriptionId") params)
    sub ← ops.get_subscription id
    lift (dump_with_auth sub)

  unfoldable pub dispatch : Text → Json → Option Caller → Exec S Json
  dispatch method params caller =
      if text_eq method list_topics_method
      then ops.list_topics
      else if text_eq method subscribe_method
      then on_subscribe params caller
      else if text_eq method get_subscription_method
      then on_get_subscription params
      else if text_eq method list_subscriptions_method
      then on_list_subscriptions params
      else if text_eq method renew_subscription_method
      then on_renew params
      else if text_eq method delete_subscription_method
      then on_delete params
      else if text_eq method replay_method
      then on_replay params
      else if text_eq method ack_method
      then on_ack params
      else if text_eq method list_delivery_attempts_method
      then on_list_delivery_attempts params
      else throw (protocol extension_not_supported)

  abbrev pub invalid_params : Json → Exn → Fields
  invalid_params req_id e = error req_id (neg 32602) (text "Invalid params: " ++ ops.message e) none

  -- the two `except` clauses around the dispatch; another exception passes through
  unfoldable pub answer : Json → Result Json → Result Fields
  unfolding result error value jsonrpc_code
  answer req_id (ok r) = ok (result req_id r)
  answer req_id (raise (protocol code)) = ok (
      error req_id (jsonrpc_code code) (ops.message (protocol code))
        (some (obj (merge (field (text "code") (str (value code)) end) (ops.details code)))))
  answer req_id (raise key_error) = ok (invalid_params req_id key_error)
  answer req_id (raise type_error) = ok (invalid_params req_id type_error)
  answer req_id (raise value_error) = ok (invalid_params req_id value_error)
  answer req_id (raise index_error) = raise index_error
  answer req_id (raise attribute_error) = raise attribute_error
  answer req_id (raise assertion_error) = raise assertion_error
  answer req_id (raise out_of_fuel) = raise out_of_fuel
  answer req_id (raise (foreign n)) = raise (foreign n)

  abbrev pub unknown_method : Json → Json → Exec S Fields
  unknown_method req_id method s = (
    ok (error req_id (neg 32601) (text "Unknown method " ++ ops.show method ++ text ".") none),
    s,
  )

  -- from `if method not in METHODS` on
  unfoldable pub handle_method : Json → Json → Json → Option Caller → Exec S Fields
  unfolding error dispatch answer
  handle_method req_id (str method) params caller s =
      if any_by (λ n. text_eq n method) canonical_methods
      then (let (r, s') = dispatch method params caller s in (answer req_id r, s'))
      else unknown_method req_id (str method) s
  handle_method req_id (arr _) params caller s = (raise type_error, s)
  handle_method req_id (obj _) params caller s = (raise type_error, s)
  handle_method req_id null params caller s = unknown_method req_id null s
  handle_method req_id (bool b) params caller s = unknown_method req_id (bool b) s
  handle_method req_id (int n) params caller s = unknown_method req_id (int n) s
  handle_method req_id (float n k) params caller s = unknown_method req_id (float n k) s

  unfoldable pub handle : Fields → Option Caller → Exec S Fields
  unfolding error handle_method
  handle request caller s =
      let invalid = error (id_of request) (neg 32600) (text "Invalid JSON-RPC request.") none in
      if not (is_version (get_field (text "jsonrpc") request))
      then (ok invalid, s)
      else elim (get_field (text "method") request) [
        | none ↦ (ok invalid, s)
        | some method ↦
            handle_method (id_of request) method (params_of (get_field (text "params") request))
              caller s
      ]
