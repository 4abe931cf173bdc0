-- ===== src/Examples/Requests.antt =====
-- Requests of JSON-RPC and of HTTP, over the publisher, and the retry queue in Postgres.
use mathlib.Core.List.{reverse}
use mathlib.Core.List.Permᴰ
use a2a_events_python.Common.{
  ℕ, ◌≡◌, refl, inl, arith, put, true, false, none, some, List, [], ◌∷◌, any_by, Text, text,
  text_eq, values, get,
}
use a2a_events_python.Json.{Json, null, str, obj, Fields, field, end, get_field, scalar_eq, truthy}
use a2a_events_python.Errors.{ok, type_error}
use a2a_events_python.Exec.{◌>>=◌, pure, throw}
use a2a_events_python.Models.{Subscription, Selector, DeliveryPreference}
use a2a_events_python.Auth.{AuthIdentity}
use a2a_events_python.Methods.{
  canonical_methods, get_subscription_method, delete_subscription_method,
}
use a2a_events_python.JsonRpc.{Operations, handle, dispatch, params_of, id_of, on_delete}
use a2a_events_python.JsonRpc.Answers.{
  IsResponse, handle-IsResponse, AsServed, served, handle-served,
}
use a2a_events_python.HttpBinding.{rpc_over_http, request_of}
use a2a_events_python.HttpBinding.Statuses.{http_answer, rpc_over_http-dispatch}
use a2a_events_python.RetryQueue
use a2a_events_python.RetryQueue.{RetryItem, RetryQueue, claimed}
use a2a_events_python.Postgres.Retries
use a2a_events_python.Postgres.Retries.Agreement.{Keyed, Settled}
use a2a_events_python.Postgres.Retries.Runs.{
  Op, enqueueing, claiming, completing, rescheduling, in_memory, run_table, run_memory,
  run_table-run_memory,
}
use a2a_events_python.SubscriptionStore.{get_sub}
use a2a_events_python.Publisher.{World, M}
use a2a_events_python.Publisher.Lifecycle.{get_subscription, renew, delete, ack}
use a2a_events_python.Examples.{sub_id, world_at, cfg, env_with, acked}

-- A method of the publisher on an argument that must be a text.
abbrev on_text : {A : Type 0} → (Text → M A) → Json → M A
on_text f (str t) = f t
on_text f _ = throw type_error

-- The publisher behind the binding, where a test needs it: the other methods return at once.
abbrev ops : Operations World Subscription Selector DeliveryPreference AuthIdentity
ops = record {
  list_topics = pure null;
  subscribe = λ url topics delivery selector from_cursor lease metadata caller. throw type_error;
  get_subscription = on_text (get_subscription (env_with acked) cfg);
  paginate_subscriptions = λ token size. pure ([], null);
  renew = λ id lease. on_text (λ t. renew (env_with acked) cfg t 60) id;
  delete = on_text (λ t. do _ ← delete (env_with acked) cfg t; pure tt);
  replay = λ id from_cursor to_cursor limit. pure null;
  ack = λ id cursor. on_text (λ t. on_text (ack (env_with acked) cfg t) cursor) id;
  list_delivery_attempts = λ id token size. pure null;
  delivery_auth = λ s. none;
  dump = λ s. field (text "subscriptionId") (str s.subscription_id) end;
  validate_selector = λ v. none;
  validate_delivery = λ v. none;
  message = λ e. [];
  show = λ v. [];
  details = λ c. end;
}

abbrev id_params : Json
id_params = obj (field (text "subscriptionId") (str sub_id) end)

abbrev delete_request : Fields
delete_request = request_of delete_subscription_method id_params

known_delete : any_by (λ n. text_eq n delete_subscription_method) canonical_methods ≡ true
unfolding text_eq
known_delete = refl

known_get : any_by (λ n. text_eq n get_subscription_method) canonical_methods ≡ true
unfolding text_eq
known_get = refl

abbrev deleted_response : Fields
deleted_response = field (text "jsonrpc") (str (text "2.0")) (
    field (text "id") (str (text "http")) (
      field (text "result")
        (obj (
          field (text "subscriptionId") (str sub_id)
            (field (text "status") (str (text "deleted")) end)))
        end))

deletes :
    handle ops delete_request none (world_at 0)
    ≡ (ok deleted_response, (handle ops delete_request none (world_at 0)).1)
unfolding handle dispatch delete get_sub get text_eq get_field scalar_eq on_delete truthy
deletes = refl

handle-IsResponse_example : IsResponse (id_of delete_request) deleted_response
handle-IsResponse_example =
    handle-IsResponse ops delete_request none (world_at 0)
      (handle ops delete_request none (world_at 0)).1 deleted_response deletes

handle-served_example :
    AsServed ops
      (served delete_request)
      (id_of delete_request)
      (params_of (some id_params))
      none
      (world_at 0)
      (handle ops delete_request none (world_at 0))
unfolding get_field text_eq
handle-served_example = handle-served ops delete_request none (world_at 0)

rpc_over_http-dispatch_example :
    rpc_over_http ops get_subscription_method id_params 200 none (world_at 0)
    ≡ http_answer ops 200
        (dispatch ops get_subscription_method (params_of (some id_params)) none (world_at 0))
unfolding get_field
rpc_over_http-dispatch_example =
    rpc_over_http-dispatch ops get_subscription_method id_params 200 none (world_at 0) known_get
      (λ c. refl)

abbrev item_at : ℕ → Text → RetryItem
item_at due id = record {
  retry_id = id;
  subscription_id = sub_id;
  topic = text "orders";
  cursor = [];
  event_id = text "evt_1";
  attempt = 1;
  next_retry_at = due;
  last_error = none;
}

abbrev queue : RetryQueue
queue = (text "rty_1", item_at 5 (text "rty_1")) ∷ []

abbrev ops_on_queue : List Op
ops_on_queue =
    enqueueing (item_at 7 (text "rty_2"))
    ∷ claiming reverse (λ is. is) 6 1 30
    ∷ rescheduling (text "rty_1") 9 2 none
    ∷ completing (text "rty_2")
    ∷ []

new_item : claimed (text "rty_2") (values queue) ≡ false
unfolding text_eq
new_item = refl

enqueued-Settled : Settled 6 1 (in_memory (enqueueing (item_at 7 (text "rty_2"))) queue)
unfolding RetryQueue.enqueue put text_eq
enqueued-Settled = inl (omega arith)

run_table-run_memory_example :
    (run_table ops_on_queue (values queue) ≡ (ok tt, values (run_memory ops_on_queue queue)))
    × Keyed (run_memory ops_on_queue queue)
run_table-run_memory_example =
    run_table-run_memory ops_on_queue queue (refl, refl, tt)
      ((refl, new_item), ((Permᴰ.reverse, enqueued-Settled), (refl, (tt, tt))))
