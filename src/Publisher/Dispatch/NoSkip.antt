-- ===== src/Publisher/Dispatch/NoSkip.antt =====
-- Whole pages and single deliveries: what is on record when they end.
use Prim.Native.Nat.{max}
use a2a_events_python.Common.{
  ℕ, ◌+◌, ◌≤◌, ◌<◌, ◌≡◌, refl, ◌⊎◌, inl, inr, true, List, ◌∷◌, ◌++◌, All,
}
use a2a_events_python.Errors.{Result, ok, raise, Exn}
use a2a_events_python.Models.{Subscription, Topic}
use a2a_events_python.Selectors.{matches}
use a2a_events_python.Cursor.{offset_of}
use a2a_events_python.EventStore.{EventRecord}
use a2a_events_python.EventStore.Log.{Sorted}
use a2a_events_python.SubscriptionStore.{SubscriptionStore, mark}
use a2a_events_python.Publisher.{World, Env, Config}
use a2a_events_python.Publisher.Send.{raw_event_dict}
use a2a_events_python.Publisher.Delivery.{deliver_one}
use a2a_events_python.Publisher.Delivery.Marks.{attempted}
use a2a_events_python.Publisher.Delivery.Bound.{Ends, deliver_one-Settles}
use a2a_events_python.Publisher.Dispatch.{handle_page}
use a2a_events_python.Publisher.Dispatch.Page.{handle_page-Owed}

on_record_or_raised :
    {A : Type 0} (env : Env) (cfg : Config) (sub : Subscription) (r : EventRecord) (o : ℕ)
    (decoded : offset_of r.cursor ≡ ok o) (x : Result A) (s : SubscriptionStore)
    → Ends env cfg sub r o decoded x s
    → (attempted sub.subscription_id r.event_id s ≡ true) ⊎ ((e : Exn) × (x ≡ raise e))
on_record_or_raised env cfg sub r o decoded (ok a) s h = inl h
on_record_or_raised env cfg sub r o decoded (raise e) s h = inr (e, refl)

owed_at_end :
    {A : Type 0} (env : Env) (cfg : Config) (sub : Subscription) (r : EventRecord) (o : ℕ)
    (decoded : offset_of r.cursor ≡ ok o) (x : Result A) (s : SubscriptionStore)
    → ((mark sub.subscription_id r.topic s ≤ o)
        ⊎ (attempted sub.subscription_id r.event_id s ≡ true))
    → Ends env cfg sub r o decoded x s
    → (attempted sub.subscription_id r.event_id s ≡ true)
      ⊎ (((e : Exn) × (x ≡ raise e)) × (mark sub.subscription_id r.topic s ≤ o))
owed_at_end env cfg sub r o decoded (ok a) s k h = inl h
owed_at_end env cfg sub r o decoded (raise e) s (inl before) h = inr ((e, refl), before)
owed_at_end env cfg sub r o decoded (raise e) s (inr on) h = inl on

-- With at least one attempt configured, and whatever the transport answers: a delivery of an event
-- with a well-formed cursor, inline or queued, ends with an attempt of the event on record or with
-- an exception; and the mark of its topic is no higher than before, or an attempt of the event is
-- on record and the mark is no higher than before or than just past the event.
pub deliver_one_on_record :
    (env : Env) (cfg : Config) (sub : Subscription) (r : EventRecord) (o : ℕ) (w : World)
    → offset_of r.cursor ≡ ok o
    → 0 < cfg.max_attempts
    → ((attempted sub.subscription_id r.event_id (deliver_one env cfg sub r w).1.subs ≡ true)
        ⊎ ((e : Exn) × ((deliver_one env cfg sub r w).0 ≡ raise e)))
      × ((mark sub.subscription_id r.topic (deliver_one env cfg sub r w).1.subs
            ≤ mark sub.subscription_id r.topic w.subs)
          ⊎ ((mark sub.subscription_id r.topic (deliver_one env cfg sub r w).1.subs
                ≤ max (mark sub.subscription_id r.topic w.subs) (o + 1))
              × (attempted sub.subscription_id r.event_id (deliver_one env cfg sub r w).1.subs
                  ≡ true)))
deliver_one_on_record env cfg sub r o w decoded enough =
    let (moves, ends) = deliver_one-Settles env cfg sub r o decoded enough w in
    (on_record_or_raised env cfg sub r o decoded _ _ ends, moves.moved)

-- No matching event of a page is passed over. A page in the order of the log holds, after events
-- of its topic, an event that the selector matches and that neither the scan nor the mark has
-- passed. With at least one attempt configured, and whatever the transport answers: after the page
-- an attempt of the event is on record, or the page raised and the mark has not passed the event.
pub handle_page_no_skip :
    (env : Env) (cfg : Config) (sub : Subscription) (model : Topic) (event : EventRecord) (o : ℕ)
    (lo hi : ℕ) (pre post : List EventRecord) (scan processed : ℕ) (w : World)
    → 0 < cfg.max_attempts
    → offset_of event.cursor ≡ ok o
    → matches env.lower sub.selector (raw_event_dict event) model.filterable_fields ≡ ok true
    → Sorted lo hi (pre ++ event ∷ post)
    → All (λ r. r.topic ≡ event.topic) pre
    → scan ≤ o
    → mark sub.subscription_id event.topic w.subs ≤ o
    → (attempted sub.subscription_id event.event_id
          (handle_page env cfg sub model scan processed (pre ++ event ∷ post) w).1.subs
        ≡ true)
      ⊎ (((e : Exn) × ((handle_page env cfg sub model scan processed (pre ++ event ∷ post) w).0
              ≡ raise e))
          × (mark sub.subscription_id event.topic
                (handle_page env cfg sub model scan processed (pre ++ event ∷ post) w).1.subs
              ≤ o))
handle_page_no_skip env cfg sub model event o lo hi pre post scan processed w enough decoded hit
      sorted same before unmarked =
    let (kept, ends) =
      handle_page-Owed env cfg sub model enough event o decoded hit lo hi pre post sorted same scan
        processed w before unmarked in
    owed_at_end env cfg sub event o decoded _ _ kept ends
