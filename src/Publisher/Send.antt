-- ===== src/Publisher/Send.antt =====
-- The building and the sending of an event in `A2AEventsPublisher`.
use Prim.Native.Nat.{min}
use a2a_events_python.Common.{
  ℕ, ◌-◌, ◌*◌, ◌^◌, Option, none, some, [], ◌∷◌, ◌++◌, Text, text, Dict, put,
}
use a2a_events_python.Json.{Fields, field, end, str, null, obj, Json}
use a2a_events_python.Exec.{◌>>=◌}
use a2a_events_python.Models.{Subscription, CloudEvent, DeliveryMode, webhook, a2a_message}
use a2a_events_python.EventStore.{EventRecord}
use a2a_events_python.Metrics.{trace_id_for}
use a2a_events_python.HttpDelivery.{DeliveryResult}
use a2a_events_python.Publisher.{
  M, Env, Config, webhook_post, a2a_send, get_topic, new_id, transmit,
}

abbrev pub optional_text : Option Text → Json
optional_text none = null
optional_text (some s) = str s

-- `_raw_event_dict`
unfoldable pub raw_event_dict : EventRecord → Fields
raw_event_dict r =
    field (text "type") (str r.event_type)
      (field (text "subject") (optional_text r.subject) (field (text "data") (obj r.payload) end))

abbrev pub or_default : Text → Option Text → Text
or_default default none = default
or_default default (some s) = s

abbrev pub with_token : Text → Text → Option Text → Dict Text → Dict Text
with_token key prefix none d = d
with_token key prefix (some token) d = put key (prefix ++ token) d

module _ (env : Env) (cfg : Config) where
  unfoldable pub build_event : Subscription → EventRecord → ℕ → Option Text → CloudEvent
  build_event sub r attempt schema_url = record {
    id = r.event_id;
    source = r.source;
    type = r.event_type;
    subject = r.subject;
    time = r.created_at;
    payload = r.payload;
    a2apublisher = cfg.agent_card_url;
    a2atopic = r.topic;
    a2acursor = r.cursor;
    a2aschemaurl = schema_url;
    a2asubscription = some sub.subscription_id;
    a2adeliveryattempt = some attempt;
    a2atraceid = some (trace_id_for r.event_id);
  }

  -- retry_initial_delay * 2 ** (attempt - 1), at most retry_max_delay
  unfoldable pub backoff_delay : ℕ → ℕ
  backoff_delay attempt = min (cfg.retry_initial_delay * 2 ^ (attempt - 1)) cfg.retry_max_delay

  abbrev pub token_for : Subscription → Option Text
  token_for sub = elim cfg.delivery_token_issuer [
    | none ↦ none
    | some issue ↦ some (issue sub.subscription_id)
  ]

  abbrev pub headers_of : Subscription → Text → Text → Dict Text
  headers_of sub signature timestamp =
      with_token (text "Authorization") (text "Bearer ") (token_for sub) (
        (text "A2A-Event-Signature", signature)
        ∷ (text "A2A-Event-Timestamp", timestamp)
        ∷ (text "A2A-Event-Key-ID", env.kid)
        ∷ (text "A2A-Subscription-ID", sub.subscription_id)
        ∷ [])

  abbrev meta_of : Subscription → Text → Text → Dict Text
  meta_of sub signature timestamp = with_token (text "deliveryToken") [] (token_for sub) (
      (text "kind", text "event.delivery")
      ∷ (text "signature", signature)
      ∷ (text "timestamp", timestamp)
      ∷ (text "keyId", env.kid)
      ∷ (text "subscriptionId", sub.subscription_id)
      ∷ [])

  -- `_send`: the two framings
  unfoldable pub send_as : DeliveryMode → Subscription → CloudEvent → Text → Text → M DeliveryResult
  unfolding transmit new_id
  send_as webhook sub event signature timestamp = transmit env (
      webhook_post (or_default [] sub.delivery.resolved_url) (headers_of sub signature timestamp)
        event)
  send_as a2a_message sub event signature timestamp = do
    hex ← new_id env
    transmit env (
        a2a_send (or_default [] sub.delivery.resolved_endpoint) (text "msg_" ++ hex)
          (meta_of sub signature timestamp) event)

  unfoldable pub attempt_send : Subscription → EventRecord → ℕ → M DeliveryResult
  unfolding send_as build_event
  attempt_send sub r attempt = do
    topic ← get_topic r.topic
    let event = build_event sub r attempt topic.schema_url
    send_as sub.delivery.mode sub event (env.sign event) (env.timestamp event.time)
