-- ===== src/Publisher/Subscribe.antt =====
-- `subscribe` of `A2AEventsPublisher`: the guards in their order, and the starting positions.
use a2a_events_python.Common.{
  ℕ, ◌+◌, ◌*◌, not, ◌&&◌, Option, none, some, List, [], ◌∷◌, ◌++◌, leb, if◌then◌else◌, filter_by,
  any_by, length, Text, text, text_eq, Dict, put,
}
use a2a_events_python.Json.{Fields}
use a2a_events_python.Errors.{
  Result, ok, raise, protocol, delivery_mode_not_supported, replay_not_supported, rate_limited,
}
use a2a_events_python.Exec.{◌>>=◌, ◌>>◌, pure, lift, gets}
use a2a_events_python.Models.{Topic, Subscription, active, DeliveryPreference, mode_eq, Selector}
use a2a_events_python.Cursor.{earliest, latest, offset_of, topic_of}
use a2a_events_python.Selectors.{validate_selector}
use a2a_events_python.Limits.{check_selector}
use a2a_events_python.Auth.{AuthIdentity}
use a2a_events_python.EventStore
use a2a_events_python.EventStore.{EventRecord}
use a2a_events_python.SubscriptionStore
use a2a_events_python.SubscriptionStore.{DeliveryAttempt, DeadLetter}
use a2a_events_python.Publisher.{M, Env, Config, second, on_subs, get_topic, now, new_id, read}
use a2a_events_python.Publisher.Guards.{
  check_lease, resolve_card, check_delivery_mode, resolve_delivery_target,
}
use a2a_events_python.Publisher.Dispatch.{dispatch_subscription}
use a2a_events_python.Publisher.Lifecycle.{list_subscriptions}

-- list(dict.fromkeys(topics)): the first of each name
unfoldable pub distinct : List Text → List Text → List Text
distinct seen [] = []
distinct seen (t ∷ ts) =
    let rest = distinct (t ∷ seen) ts in
    let again = distinct seen ts in if any_by (λ s. text_eq s t) seen then again else t ∷ rest

-- The arguments of `subscribe`.
pub record Request : Type 0 where
  pub subscriber_card_url : Text
  pub topics : List Text
  pub delivery : DeliveryPreference
  pub selector : Option Selector
  pub from_cursor : Text
  pub lease_seconds : ℕ
  pub metadata : Fields
  pub caller : Option AuthIdentity

module _ (env : Env) (cfg : Config) where
  abbrev quota_of : Option ℕ → ℕ → Result (Unit {0})
  quota_of none existing = ok tt
  quota_of (some most) existing = if leb most existing then raise (protocol rate_limited) else ok tt

  -- `_check_subscription_quota`
  unfoldable pub check_subscription_quota : Option ℕ → Text → M (Unit {0})
  check_subscription_quota none url = pure tt
  check_subscription_quota (some most) url = do
    subs ← list_subscriptions env cfg
    lift (quota_of (some most) (length (filter_by (λ s. text_eq s.subscriber_card_url url) subs)))

  abbrev principal : Option AuthIdentity → Text → Text
  principal none url = url
  principal (some caller) url = caller.subject

  unfoldable pub limit_rate : Request → M (Unit {0})
  limit_rate req = elim cfg.rate_limiter [
    | none ↦ pure tt
    | some check ↦ λ w. (
      check w.limited (principal req.caller req.subscriber_card_url) (text "subscribe"),
      record w { limited = w.limited + 1 },
    )
  ]

  abbrev limit_selector : Request → Result (Unit {0})
  limit_selector req = elim cfg.selector_limits [
    | none ↦ ok tt
    | some limits ↦ check_selector limits req.selector
  ]

  abbrev authorize : Option AuthIdentity → List Text → Result (Unit {0})
  authorize caller topics = elim cfg.authorizer [
    | none ↦ ok tt
    | some a ↦ a.authorize_subscribe caller topics
  ]

  unfoldable pub get_topics : List Text → M (List Topic)
  get_topics [] = pure []
  get_topics (name ∷ names) = do
    topic ← get_topic name
    rest ← get_topics names
    pure (topic ∷ rest)

  -- the loop of `subscribe` over the topic models
  unfoldable pub check_topics : Request → List Topic → Result (Unit {0})
  check_topics req [] = ok tt
  check_topics req (topic ∷ topics) =
      let rest = check_topics req topics in
      let mode_ok = any_by (mode_eq req.delivery.mode) topic.delivery_modes in
      elim (validate_selector req.selector topic) [
        | raise e ↦ raise e
        | ok _ ↦
            if not mode_ok
            then raise (protocol delivery_mode_not_supported)
            else if not (text_eq req.from_cursor latest) && not topic.replay
            then raise (protocol replay_not_supported)
            else rest
      ]

  -- the end of `_start_offset`: the latest event, as the next offset
  unfoldable pub latest_start : Text → M ℕ
  latest_start topic = do
    w ← gets (λ v. v)
    if leb (EventStore.count topic w.events) 0 then pure 0 else (do
      cursor ← lift (EventStore.latest_cursor topic w.events)
      offset ← lift (offset_of cursor)
      pure (offset + 1))

  -- `_start_offset`, as the next offset
  unfoldable pub start_offset : Text → Text → M ℕ
  start_offset topic from_cursor =
      if text_eq from_cursor earliest
      then pure 0
      else if text_eq from_cursor latest
      then latest_start topic
      else (do
        own ← lift (topic_of from_cursor)
        if text_eq own topic
            then (do
              page ← read env topic (some from_cursor) (some from_cursor) 1
              offset ← lift (offset_of from_cursor)
              pure (offset + 1))
            else latest_start topic)

  unfoldable pub start_offsets : Text → List Topic → Dict ℕ → M (Dict ℕ)
  start_offsets from_cursor [] d = pure d
  start_offsets from_cursor (topic ∷ topics) d = do
    next ← start_offset topic.name from_cursor
    start_offsets from_cursor topics (put topic.name next d)

  unfoldable pub subscribe : ℕ → Request → M Subscription
  subscribe fuel req = do
    lift (check_lease env cfg req.lease_seconds)
    let topics = distinct [] req.topics
    limit_rate req
    lift (limit_selector req)
    lift (authorize req.caller topics)
    check_subscription_quota cfg.max_subscriptions_per_subscriber req.subscriber_card_url
    card ← lift (resolve_card env cfg req.subscriber_card_url)
    lift (check_delivery_mode env cfg req.delivery.mode card)
    resolved ← lift (resolve_delivery_target env cfg req.delivery card)
    models ← get_topics topics
    lift (check_topics req models)
    t ← now env
    hex ← new_id env
    let sub : Subscription = record {
      subscription_id = text "sub_" ++ hex;
      status = active;
      publisher_card_url = cfg.agent_card_url;
      subscriber_card_url = req.subscriber_card_url;
      topics = topics;
      selector = req.selector;
      delivery = resolved;
      created_at = t;
      lease_until = t + req.lease_seconds * second;
      cursors = [];
      metadata = req.metadata;
    }
    starts ← start_offsets req.from_cursor models []
    on_subs (SubscriptionStore.add sub starts)
    if cfg.deferred_dispatch
        then pure sub
        else (do n ← dispatch_subscription env cfg fuel sub none; pure sub)
