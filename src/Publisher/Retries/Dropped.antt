-- ===== src/Publisher/Retries/Dropped.antt =====
-- Retries for subscriptions that are gone or no longer active.
use a2a_events_python.Common.{
  ◌≡◌, refl, ◌∙◌, ◌⊎◌, inl, inr, false, Option, none, some, text_eq_refl, get, get-remove,
}
use a2a_events_python.Errors.{ok}
use a2a_events_python.Models.{Subscription, is_active}
use a2a_events_python.SubscriptionStore.{get_sub}
use a2a_events_python.RetryQueue
use a2a_events_python.RetryQueue.{RetryItem}
use a2a_events_python.Publisher.{World, Env, Config}
use a2a_events_python.Publisher.Retries.{retry_delivery, retry_for}

dropped :
    (env : Env) (cfg : Config) (item : RetryItem) (found : Option Subscription) (w : World)
    → get_sub item.subscription_id w.subs ≡ found
    → (found ≡ none) ⊎ ((sub : Subscription) × (found ≡ some sub) × (is_active sub.status ≡ false))
    → retry_delivery env cfg item w
      ≡ (ok tt, record w { queue = RetryQueue.complete item.retry_id w.queue })
unfolding retry_delivery retry_for
dropped env cfg item found w e (inl gone) = rw (e ∙ gone, retry_delivery) refl
dropped env cfg item found w e (inr (sub, here, off)) =
    rw (e ∙ here, retry_delivery) (rw (off, retry_for) refl)

-- A retry whose subscription is gone or not active sends nothing and changes nothing but the queue,
-- where the item is gone afterwards.
pub retry_delivery_dropped :
    (env : Env) (cfg : Config) (item : RetryItem) (w : World)
    → (get_sub item.subscription_id w.subs ≡ none)
      ⊎ ((sub : Subscription) × (get_sub item.subscription_id w.subs ≡ some sub)
          × (is_active sub.status ≡ false))
    → (retry_delivery env cfg item w
        ≡ (ok tt, record w { queue = RetryQueue.complete item.retry_id w.queue }))
      × (get item.retry_id (retry_delivery env cfg item w).1.queue ≡ none)
unfolding RetryQueue.complete
retry_delivery_dropped env cfg item w off =
    let done = dropped env cfg item (get_sub item.subscription_id w.subs) w refl off in
    (
      done,
      rw done (
          rw (get-remove item.retry_id item.retry_id w.queue)
            (rw (text_eq_refl item.retry_id) refl)),
    )
