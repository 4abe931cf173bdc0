-- ===== src/Publisher/Retries/Rewind.antt =====
-- What a retry that fails for good does to the high-water mark.
use a2a_events_python.Common.{ℕ, ◌+◌, ◌≡◌, refl, arith, true, false, text_eq_refl}
use a2a_events_python.Errors.{Result, ok, raise}
use a2a_events_python.Exec.{continue}
use a2a_events_python.Models.{Subscription}
use a2a_events_python.Cursor.{offset_of}
use a2a_events_python.EventStore.{EventRecord}
use a2a_events_python.SubscriptionStore.{mark, mark-set_high_water}
use a2a_events_python.RetryQueue.{RetryItem}
use a2a_events_python.HttpDelivery.{DeliveryResult}
use a2a_events_python.Publisher.{World, Env, Config}
use a2a_events_python.Publisher.Send.{attempt_send}
use a2a_events_python.Publisher.Delivery.{record_attempt, hand_off, on_terminal}
use a2a_events_python.Publisher.Retries.{is_terminal, complete, retry_record}

module _ (env : Env) (cfg : Config) (sub : Subscription) (r : EventRecord) (o : ℕ)
    (decoded : offset_of r.cursor ≡ ok o) where
  mark-hand_off :
      (w : World)
      → ((hand_off env cfg sub r w).0 ≡ ok tt)
        × (mark sub.subscription_id r.topic (hand_off env cfg sub r w).1.subs ≡ o + 1)
  unfolding hand_off
  mark-hand_off w =
      let sid = sub.subscription_id in
      let set = mark-set_high_water sid r.topic sid r.topic (o + 1) w.subs in
      rw (decoded, hand_off) (refl, ground (arith, set, text_eq_refl sid, text_eq_refl r.topic))

  mark-on_terminal :
      (attempt : ℕ) (result : DeliveryResult) (w : World)
      → ((on_terminal env cfg sub r attempt result w).0 ≡ ok tt)
        × (mark sub.subscription_id r.topic (on_terminal env cfg sub r attempt result w).1.subs
            ≡ o + 1)
  unfolding on_terminal record_attempt
  mark-on_terminal attempt result w = mark-hand_off _

  then_complete :
      (item : RetryItem) (x : Result (Unit {0})) (v : World)
      → x ≡ ok tt
      → mark sub.subscription_id r.topic v.subs ≡ o + 1
      → mark sub.subscription_id r.topic (continue (λ _. complete env cfg item) (x, v)).1.subs
        ≡ o + 1
  then_complete item (ok u) v e h = h
  then_complete item (raise x) v e h = absurd (cc)

  -- When a retry sends its event, the answer is no acknowledgement, and no attempt is left or the
  -- answer forbids another, the mark of the topic is set to just past the event, however far past
  -- it the mark was before.
  pub retry_record_rewinds :
      (item : RetryItem) (result : DeliveryResult) (w w' : World)
      → attempt_send env cfg sub r (item.attempt + 1) w ≡ (ok result, w')
      → result.ack ≡ false
      → is_terminal env cfg result (item.attempt + 1) ≡ true
      → mark sub.subscription_id r.topic (retry_record env cfg item sub r w).1.subs ≡ o + 1
  unfolding retry_record on_terminal
  retry_record_rewinds item result w w' sent nack terminal =
      let n = item.attempt + 1 in
      let (done, at) = mark-on_terminal n result w' in
      rw (sent, retry_record)
        (rw nack (
          rw terminal (
            then_complete item (on_terminal env cfg sub r n result w').0
              (on_terminal env cfg sub r n result w').1 done at)))
