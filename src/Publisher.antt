-- ===== src/Publisher.antt =====
-- runtime/publisher.py: `A2AEventsPublisher` over the in-memory stores. A method is an action of
-- `Exec World`; it runs to its end without another task in between. What lies outside (the clock,
-- the ids, the transport, the keys, the callbacks) is the record `Env`: the n-th reading of the
-- clock, the n-th id, the answer to the n-th message.
pub mod Guards
pub mod Send
pub mod Delivery
pub mod Dispatch
pub mod Lifecycle
pub mod Subscribe
pub mod Retries
use a2a_events_python.Common.{
  ℕ, ◌+◌, Bool, true, false, Option, none, some, List, [], ◌∷◌, ◌++◌, if◌then◌else◌, leb, Text,
  Dict, get, put,
}
use a2a_events_python.Json.{Fields}
use a2a_events_python.Errors.{Result, ok}
use a2a_events_python.Exec.{Exec, ◌>>=◌, ◌>>◌, pure, lift, gets, modify}
use a2a_events_python.Models.{
  Topic, Subscription, CloudEvent, DeliveryMode, SubscriptionStatus, active, expired, is_active,
}
use a2a_events_python.EventStore
use a2a_events_python.EventStore.{EventStore, EventRecord}
use a2a_events_python.SubscriptionStore
use a2a_events_python.SubscriptionStore.{SubscriptionStore}
use a2a_events_python.RetryQueue.{RetryQueue}
use a2a_events_python.Metrics
use a2a_events_python.Metrics.{Metrics}
use a2a_events_python.HttpDelivery.{DeliveryResult}
use a2a_events_python.Limits.{SelectorLimits}
use a2a_events_python.Auth.{AuthIdentity}
use a2a_events_python.Ssrf.{Urls, SsrfPolicy}

-- A message handed to the transport, and the event that it carries.
pub data Message : Type 0 where
  webhook_post : Text → Dict Text → CloudEvent → Message
  a2a_send : Text → Text → Dict Text → CloudEvent → Message

pub record SubscriberCard : Type 0 where
  pub card_url : Text
  pub a2a_endpoint : Option Text
  pub receive_url : Option Text
  pub accepted_delivery_modes : List DeliveryMode

pub record Env : Type 0 where
  pub clock : ℕ → ℕ
  pub uuid_hex : ℕ → Text
  pub respond : ℕ → Message → Result DeliveryResult
  -- timestamp of an event as text, and the signature of an event by the active key
  pub timestamp : ℕ → Text
  pub sign : CloudEvent → Text
  pub kid : Text
  pub content_hash : Fields → Text
  -- str.lower
  pub lower : Text → Text
  pub card_resolver : Text → Result SubscriberCard
  pub urls : Urls

pub record Authorizer : Type 0 where
  pub authorize_subscribe : Option AuthIdentity → List Text → Result (Unit {0})
  pub authorize_delivery : Subscription → Bool

-- `PublisherConfig`, less the stores. Delays are microseconds; `queued` is whether a retry queue is
-- set. The rate limiter answers its n-th call. Offloading to threads changes no result.
pub record Config : Type 0 where
  pub agent_card_url : Text
  pub source : Text
  pub ssrf_policy : SsrfPolicy
  pub min_lease_seconds : ℕ
  pub max_lease_seconds : ℕ
  pub max_attempts : ℕ
  pub retry_initial_delay : ℕ
  pub retry_max_delay : ℕ
  pub authorizer : Option Authorizer
  pub delivery_token_issuer : Option (Text → Text)
  pub queued : Bool
  pub rate_limiter : Option (ℕ → Text → Text → Result (Unit {0}))
  pub selector_limits : Option SelectorLimits
  pub max_subscriptions_per_subscriber : Option ℕ
  pub page_size : ℕ
  pub deferred_dispatch : Bool

-- `sent` and `slept` record what was sent and how long the retries slept, oldest first.
pub record World : Type 0 where
  pub events : EventStore
  pub subs : SubscriptionStore
  pub queue : RetryQueue
  pub topics : Dict Topic
  pub metrics : Metrics
  pub sent : List Message
  pub slept : List ℕ
  pub ticks : ℕ
  pub minted : ℕ
  pub sends : ℕ
  pub limited : ℕ

abbrev pub M : Type 0 → Type 0
M A = Exec World A

abbrev pub second : ℕ
second = 1_000_000

-- A call of the subscription store that changes it.
abbrev pub on_subs : (SubscriptionStore → SubscriptionStore) → M (Unit {0})
on_subs f = modify λ w. record w { subs = f w.subs }

abbrev pub on_queue : (RetryQueue → RetryQueue) → M (Unit {0})
on_queue f = modify λ w. record w { queue = f w.queue }

abbrev pub on_metrics : (Metrics → Metrics) → M (Unit {0})
on_metrics f = modify λ w. record w { metrics = f w.metrics }

-- The object that the store holds under the subscription's id, as its holder sees it now.
unfoldable pub deref : Subscription → World → Subscription
deref sub w = elim (SubscriptionStore.get_sub sub.subscription_id w.subs) [
  | none ↦ sub
  | some live ↦ live
]

-- `_get_topic`: read through the cache
unfoldable pub get_topic : Text → M Topic
get_topic name w = elim (get name w.topics) [
  | some topic ↦ (ok topic, w)
  | none ↦
      (do
        topic ← lift (EventStore.get_topic name w.events)
        modify (λ v. record v { topics = put name topic v.topics })
        pure topic)
        w
]

module _ (env : Env) where
  -- `_now()`
  unfoldable pub now : M ℕ
  now w = (ok (env.clock w.ticks), record w { ticks = w.ticks + 1 })

  -- uuid.uuid4().hex
  unfoldable pub new_id : M Text
  new_id w = (ok (env.uuid_hex w.minted), record w { minted = w.minted + 1 })

  -- await self.transport.send_…
  unfoldable pub transmit : Message → M DeliveryResult
  transmit message w =
      (env.respond w.sends message, record w { sent = w.sent ++ message ∷ []; sends = w.sends + 1 })

  -- `self.store.read`, with the two readings of the clock that it may make
  unfoldable pub read : Text → Option Text → Option Text → ℕ → M (List EventRecord × Option Text)
  unfolding now
  read topic from_cursor to_cursor limit = do
    t ← now
    t' ← now
    w ← gets (λ v. v)
    lift (EventStore.read topic from_cursor to_cursor limit t t' w.events)

  -- `_expire_if_due`: whether the status changed, and the subscription after it. The clock is read
  -- for an active subscription only.
  unfoldable pub expire_if_due : Subscription → M (Bool × Subscription)
  unfolding now
  expire_if_due sub =
      if is_active sub.status
      then (do
        t ← now
        pure (
            if leb sub.lease_until t
            then (true, record sub { status = expired })
            else (false, sub)))
      else pure (false, sub)

  -- the same, with the `update` that every caller makes on a change
  unfoldable pub refresh : Subscription → M Subscription
  unfolding expire_if_due
  refresh sub = do
    (changed, sub') ← expire_if_due sub
    if changed then on_subs (SubscriptionStore.update sub') else pure tt
    pure sub'

  -- `_is_active`
  unfoldable pub is_live : Subscription → M Bool
  unfolding refresh deref
  is_live sub = do live ← gets (deref sub); sub' ← refresh live; pure (is_active sub'.status)
