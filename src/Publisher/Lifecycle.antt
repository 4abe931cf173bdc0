-- ===== src/Publisher/Lifecycle.antt =====
-- The control plane of `A2AEventsPublisher`: reading, renewing, deleting and acknowledging
-- subscriptions, replay, and the lists.
pub mod Status
use a2a_events_python.Common.{
  ℕ, zero, suc, ◌+◌, ◌*◌, Bool, true, false, not, ◌&&◌, ◌||◌, Option, none, some, List, [], ◌∷◌,
  ◌++◌, map, leb, if◌then◌else◌, filter_by, any_by, length, Text, text, text_eq, Dict, get, put,
  ltb,
}
use a2a_events_python.Json.{Fields}
use a2a_events_python.Errors.{
  Result, ok, raise, protocol, index_error, delivery_mode_not_supported, replay_not_supported,
  subscription_not_found, subscription_expired, rate_limited, topic_not_authorized,
}
use a2a_events_python.Exec.{Exec, ◌>>=◌, ◌>>◌, pure, throw, lift, gets, modify}
use a2a_events_python.Models.{
  Topic, Subscription, SubscriptionStatus, active, expired, deleted, is_active, is_deleted,
  is_expired, DeliveryPreference, DeliveryMode, mode_eq, Selector, CloudEvent,
}
use a2a_events_python.Cursor.{earliest, latest, offset_of, topic_of}
use a2a_events_python.Selectors.{matches, validate_selector}
use a2a_events_python.Limits.{check_selector}
use a2a_events_python.Auth.{AuthIdentity}
use a2a_events_python.Pagination.{TokenCodec, paginate}
use a2a_events_python.EventStore
use a2a_events_python.EventStore.{EventRecord}
use a2a_events_python.SubscriptionStore
use a2a_events_python.SubscriptionStore.{DeliveryAttempt, DeadLetter}
use a2a_events_python.Metrics
use a2a_events_python.Publisher.{
  World, M, Env, Config, second, on_subs, on_metrics, deref, get_topic, now, new_id, read, refresh,
  Authorizer,
}
use a2a_events_python.Publisher.Guards.{
  check_lease, resolve_card, check_delivery_mode, resolve_delivery_target,
}
use a2a_events_python.Publisher.Send.{raw_event_dict, build_event}
use a2a_events_python.Publisher.Delivery.{advance}
use a2a_events_python.Publisher.Dispatch.{dispatch_subscription}

abbrev pub member : List Text → Text → Bool
member names name = any_by (λ n. text_eq n name) names

module _ (env : Env) (cfg : Config) where
  -- the loop of `list_subscriptions`, which expires what is due
  unfoldable pub refresh_all : List Subscription → M (List Subscription)
  refresh_all [] = pure []
  refresh_all (sub ∷ subs) = do sub' ← refresh env sub; rest ← refresh_all subs; pure (sub' ∷ rest)

  unfoldable pub list_subscriptions : M (List Subscription)
  unfolding refresh_all
  list_subscriptions = do
    all ← gets (λ w. SubscriptionStore.list_all w.subs)
    subs ← refresh_all all
    pure (filter_by (λ s. not (is_deleted s.status)) subs)

  -- limit or self.page_size
  abbrev page_limit : Option ℕ → ℕ
  page_limit none = cfg.page_size
  page_limit (some zero) = cfg.page_size
  page_limit (some (suc n)) = suc n

  unfoldable pub paginate_subscriptions :
      TokenCodec → Option Text → Option ℕ → M (List Subscription × Option Text)
  paginate_subscriptions codec page_token limit = do
    subs ← list_subscriptions
    lift (paginate (λ s. s.subscription_id) codec subs page_token (page_limit limit))

  unfoldable pub get_subscription : Text → M Subscription
  get_subscription subscription_id = do
    found ← gets (λ w. SubscriptionStore.get_sub subscription_id w.subs)
    elim found [
      | none ↦ throw (protocol subscription_not_found)
      | some sub ↦
          if is_deleted sub.status then throw (protocol subscription_not_found) else refresh env sub
    ]

  unfoldable pub get_active_subscription : Text → M Subscription
  get_active_subscription subscription_id = do
    sub ← get_subscription subscription_id
    if not (is_active sub.status) then throw (protocol subscription_expired) else pure sub

  -- `_now() + timedelta(seconds=…)` is read after `get_subscription`
  unfoldable pub renew : Text → ℕ → M Subscription
  renew subscription_id lease_seconds = do
    lift (check_lease env cfg lease_seconds)
    sub ← get_subscription subscription_id
    t ← now env
    let sub' = record sub { lease_until = t + lease_seconds * second; status = active }
    on_subs (SubscriptionStore.update sub')
    on_metrics (Metrics.incr (text "lease_renewals") 1 [])
    pure sub'

  unfoldable pub delete : Text → M (Option Subscription)
  delete subscription_id = do
    found ← gets (λ w. SubscriptionStore.get_sub subscription_id w.subs)
    elim found [
      | none ↦ pure none
      | some sub ↦ (do
        let sub' = record sub { status = deleted }
        on_subs (SubscriptionStore.update sub')
        pure (some sub'))
    ]

  unfoldable pub ack : Text → Text → M Subscription
  ack subscription_id cursor = do
    sub ← get_active_subscription subscription_id
    topic ← lift (topic_of cursor)
    if not (member sub.topics topic)
        then throw (protocol topic_not_authorized)
        else (do advance env cfg sub topic cursor none; live ← gets (deref sub); pure live)

  unfoldable pub list_delivery_attempts :
      TokenCodec → Text → Option Text → Option ℕ → M (List DeliveryAttempt × Option Text)
  list_delivery_attempts codec subscription_id page_token limit = do
    sub ← get_subscription subscription_id
    attempts ← gets (λ w. SubscriptionStore.delivery_attempts subscription_id w.subs)
    lift (paginate (λ a. a.delivery_attempt_id) codec attempts page_token (page_limit limit))

  -- from_cursor and from_cursor not in ("earliest", "latest")
  abbrev names_topic : Option Text → Option Text
  names_topic none = none
  names_topic (some []) = none
  names_topic (some (c ∷ cs)) =
      if text_eq (c ∷ cs) earliest || text_eq (c ∷ cs) latest then none else some (c ∷ cs)

  abbrev first_topic : List Text → Result Text
  first_topic [] = raise index_error
  first_topic (t ∷ ts) = ok t

  unfoldable pub replay_topic : Option Text → List Text → Result Text
  replay_topic from_cursor topics = elim (names_topic from_cursor) [
    | none ↦ first_topic topics
    | some cursor ↦ topic_of cursor
  ]

  -- the events of `replay`: those that match, as the subscription sees them
  unfoldable pub replayed : Subscription → Topic → List EventRecord → Result (List CloudEvent)
  replayed sub model [] = ok []
  replayed sub model (r ∷ rs) =
      let rest = replayed sub model rs in
      elim (matches env.lower sub.selector (raw_event_dict r) model.filterable_fields) [
        | raise e ↦ raise e
        | ok false ↦ rest
        | ok true ↦ elim rest [
          | raise e ↦ raise e
          | ok events ↦ ok (build_event env cfg sub r 1 model.schema_url ∷ events)
        ]
      ]

  unfoldable pub replay : Text → Option Text → Option Text → ℕ → M (List CloudEvent × Option Text)
  replay subscription_id from_cursor to_cursor limit = do
    sub ← get_active_subscription subscription_id
    topic ← lift (replay_topic from_cursor sub.topics)
    if not (member sub.topics topic) then throw (protocol topic_not_authorized) else (do
      model ← get_topic topic
      if not model.replay then throw (protocol replay_not_supported) else (do
        (records, next_cursor) ← read env topic from_cursor to_cursor limit
        events ← lift (replayed sub model records)
        pure (events, next_cursor)))

  -- `delivery_auth`: the token and when it expires
  unfoldable pub delivery_auth : Subscription → Option (Text × ℕ)
  delivery_auth sub = elim cfg.delivery_token_issuer [
    | none ↦ none
    | some issue ↦ some (issue sub.subscription_id, sub.lease_until)
  ]

  -- the counts of `observability_snapshot`
  unfoldable pub active_count : ℕ → List Subscription → ℕ
  active_count t subs = length (filter_by (λ s. is_active s.status && ltb t s.lease_until) subs)

  unfoldable pub expired_count : ℕ → List Subscription → ℕ
  expired_count t subs =
      length
        (filter_by (λ s. is_expired s.status || (is_active s.status && leb s.lease_until t)) subs)

  unfoldable pub observability_snapshot : M (ℕ × ℕ × ℕ)
  observability_snapshot = do
    subs ← gets (λ w. SubscriptionStore.list_all w.subs)
    t ← now env
    dead ← gets (λ w. SubscriptionStore.dead_letters w.subs)
    pure (active_count t subs, expired_count t subs, length dead)
