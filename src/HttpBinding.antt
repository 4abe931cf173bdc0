-- ===== src/HttpBinding.antt =====
-- The HTTP routes of `create_publisher_app` in server.py, each over one JSON-RPC method. A body is
-- the JSON that the request holds, `none` for an empty one; the routing itself is FastAPI's.
pub mod Statuses
use a2a_events_python.Common.{ℕ, Option, none, some, [], ◌∷◌, Text, text}
use a2a_events_python.Json.{Json, str, obj, Fields, field, end, get_field, merge}
use a2a_events_python.Errors.{Result, ok, raise, key_error, type_error, attribute_error}
use a2a_events_python.Exec.{Exec, ◌>>=◌, lift}
use a2a_events_python.ErrorObject.{http_status_for_error}
use a2a_events_python.Methods.{
  list_topics_method, subscribe_method, get_subscription_method, list_subscriptions_method,
  renew_subscription_method, delete_subscription_method, replay_method, ack_method,
  list_delivery_attempts_method,
}
use a2a_events_python.JsonRpc.{Operations, handle}

pub record HttpResponse : Type 0 where
  pub content : Json
  pub status_code : ℕ

-- `_json_body`
unfoldable pub json_body : Option Json → Json
json_body none = obj end
json_body (some body) = body

-- {"subscriptionId": subscription_id, **body}
unfoldable pub with_id : Text → Json → Result Json
with_id subscription_id (obj body) =
    ok (obj (merge (field (text "subscriptionId") (str subscription_id) end) body))
with_id subscription_id _ = raise type_error

abbrev pub page_params : Option Text → Fields → Fields
page_params none params = params
page_params (some []) params = params
page_params (some (c ∷ cs)) params = merge params (field (text "pageToken") (str (c ∷ cs)) end)

abbrev pub request_of : Text → Json → Fields
request_of method params = field (text "jsonrpc") (str (text "2.0")) (
    field (text "id") (str (text "http"))
      (field (text "method") (str method) (field (text "params") params end)))

-- the end of `_rpc_over_http`: response["error"], or response["result"]
unfoldable pub render : ℕ → Fields → Result HttpResponse
unfolding http_status_for_error
render ok_status response = elim (get_field (text "error") response) [
  | some error ↦ render_error error
  | none ↦ elim (get_field (text "result") response) [
    | some r ↦ ok (record { content = r; status_code = ok_status })
    | none ↦ raise key_error
  ]
]
  where
    render_error : Json → Result HttpResponse
    render_error (obj error) = elim (http_status_for_error error) [
      | ok status ↦ ok (record { content = obj error; status_code = status })
      | raise e ↦ raise e
    ]
    render_error _ = raise attribute_error

-- A call of the publisher's application.
pub data Route : Type 0 where
  get_topics : Route
  post_subscriptions : Option Json → Route
  get_subscriptions : Option Text → Route
  get_subscription delete_subscription : Text → Route
  get_deliveries : Text → Option Text → Route
  post_renew post_replay post_ack : Text → Option Json → Route

module _ {S Sub Sel Delivery Caller : Type 0} (ops : Operations S Sub Sel Delivery Caller) where
  unfoldable pub rpc_over_http : Text → Json → ℕ → Option Caller → Exec S HttpResponse
  unfolding render
  rpc_over_http method params ok_status caller = do
    response ← handle ops (request_of method params) caller
    lift (render ok_status response)

  abbrev id_field : Text → Fields
  id_field subscription_id = field (text "subscriptionId") (str subscription_id) end

  unfoldable pub serve : Route → Option Caller → Exec S HttpResponse
  unfolding json_body with_id rpc_over_http
  serve get_topics caller = rpc_over_http list_topics_method (obj end) 200 none
  serve (post_subscriptions body) caller =
      rpc_over_http subscribe_method (json_body body) 201 caller
  serve (get_subscriptions page_token) caller =
      rpc_over_http list_subscriptions_method (obj (page_params page_token end)) 200 caller
  serve (get_subscription id) caller =
      rpc_over_http get_subscription_method (obj (id_field id)) 200 caller
  serve (delete_subscription id) caller =
      rpc_over_http delete_subscription_method (obj (id_field id)) 200 caller
  serve (get_deliveries id page_token) caller =
      rpc_over_http list_delivery_attempts_method (obj (page_params page_token (id_field id))) 200
        caller
  serve (post_renew id body) caller = do
    params ← lift (with_id id (json_body body))
    rpc_over_http renew_subscription_method params 200 caller
  serve (post_replay id body) caller = do
    params ← lift (with_id id (json_body body))
    rpc_over_http replay_method params 200 caller
  serve (post_ack id body) caller = do
    params ← lift (with_id id (json_body body))
    rpc_over_http ack_method params 200 caller
