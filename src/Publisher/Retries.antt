-- ===== src/Publisher/Retries.antt =====
-- `retry_delivery` of runtime/publisher.py, and the round of runtime/retry_worker.py.
pub mod Rewind
pub mod Dropped
use a2a_events_python.Common.{
  ℕ, suc, ◌+◌, Bool, true, false, not, ◌||◌, Option, none, some, List, [], ◌∷◌, leb, if◌then◌else◌,
  length, Text,
}
use a2a_events_python.Errors.{Result, ok, raise}
use a2a_events_python.Exec.{Exec, ◌>>=◌, ◌>>◌, pure, throw, lift, gets, modify}
use a2a_events_python.Models.{Subscription, is_active}
use a2a_events_python.EventStore.{EventRecord}
use a2a_events_python.SubscriptionStore
use a2a_events_python.SubscriptionStore.{retry}
use a2a_events_python.RetryQueue
use a2a_events_python.RetryQueue.{RetryItem}
use a2a_events_python.HttpDelivery.{DeliveryResult}
use a2a_events_python.Publisher.{World, M, Env, Config, on_queue, now}
use a2a_events_python.Publisher.Send.{attempt_send, backoff_delay}
use a2a_events_python.Publisher.Delivery.{on_delivered, on_terminal, record_attempt, record_at}

module _ (env : Env) (cfg : Config) where
  abbrev complete : RetryItem → M (Unit {0})
  complete item = on_queue (RetryQueue.complete item.retry_id)

  -- no attempt is left, or the answer forbids another
  abbrev is_terminal : DeliveryResult → ℕ → Bool
  is_terminal result attempt = not result.retry || leb cfg.max_attempts attempt

  unfoldable pub put_back : RetryItem → ℕ → DeliveryResult → M (Unit {0})
  put_back item attempt result = do
    t ← now env
    on_queue (
        RetryQueue.reschedule item.retry_id (t + backoff_delay env cfg attempt) attempt
          result.reason)

  -- after the record is found
  unfoldable pub retry_record : RetryItem → Subscription → EventRecord → M (Unit {0})
  retry_record item sub r = do
    let attempt = item.attempt + 1
    result ← attempt_send env cfg sub r attempt
    if result.ack
        then (do on_delivered env cfg sub r attempt result; complete item)
        else if is_terminal result attempt
        then (do on_terminal env cfg sub r attempt result; complete item)
        else (do record_attempt env cfg sub r attempt retry result; put_back item attempt result)

  unfoldable pub retry_for : RetryItem → Subscription → M (Unit {0})
  retry_for item sub = if not (is_active sub.status) then complete item else (do
    found ← record_at env cfg item.topic item.cursor
    elim found [ none ↦ complete item | some r ↦ retry_record item sub r ])

  unfoldable pub retry_delivery : RetryItem → M (Unit {0})
  retry_delivery item = do
    found ← gets (λ w. SubscriptionStore.get_sub item.subscription_id w.subs)
    elim found [ none ↦ complete item | some sub ↦ retry_for item sub ]

  unfoldable pub retry_all : List RetryItem → M (Unit {0})
  retry_all [] = pure tt
  retry_all (item ∷ items) = do retry_delivery item; retry_all items

  -- `RetryWorker.run_once`, with the batch size and the lease of the worker
  unfoldable pub run_once : ℕ → ℕ → M ℕ
  run_once batch lease_seconds = do
    t ← now env
    items ← λ w.
        let (claimed, queue) = RetryQueue.claim_due t batch lease_seconds w.queue in
        (ok claimed, record w { queue = queue })
    retry_all items
    pure (length items)
