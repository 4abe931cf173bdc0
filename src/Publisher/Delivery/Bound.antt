-- ===== src/Publisher/Delivery/Bound.antt =====
-- A delivery as a whole, inline or queued.
use a2a_events_python.Common.{
  ℕ, suc, zero, ◌+◌, ◌<◌, ◌≡◌, Bool, true, false, not, ◌||◌, ◌++◌, ◌∷◌, [], arith, if◌then◌else◌,
  leb,
}
use a2a_events_python.Errors.{Result, ok, raise}
use a2a_events_python.Exec.{◌>>=◌, ◌>>◌, continue, pure}
use a2a_events_python.Models.{Subscription}
use a2a_events_python.Cursor.{offset_of}
use a2a_events_python.EventStore.{EventRecord}
use a2a_events_python.SubscriptionStore.{SubscriptionStore, retry}
use a2a_events_python.HttpDelivery.{DeliveryResult}
use a2a_events_python.Publisher.{World, M, Env, Config, get_topic, now, new_id, transmit}
use a2a_events_python.Publisher.Send.{send_as, attempt_send, backoff_delay}
use a2a_events_python.Publisher.Delivery.{
  on_delivered, on_terminal, sleep, terminal, hand_off, enqueue_retry, deliver_inline,
  deliver_queued, deliver_one,
}
use a2a_events_python.Publisher.Delivery.Marks.{
  attempted, Moves-refl, DoesRecorded, DoesRecorded-bind,
}
use a2a_events_python.Publisher.Delivery.Attempts.{
  Moved, Delivers, recorded-then, on_delivered-Moved, on_terminal-Moved, hand_off-Moved,
}

module _ (env : Env) (cfg : Config) (sub : Subscription) (r : EventRecord) where
  -- Sending reads the topic and talks to the transport; the subscriptions stay as they are.
  pub subs-attempt_send : (n : ℕ) (w : World) → (attempt_send env cfg sub r n w).1.subs ≡ w.subs
  unfolding attempt_send get_topic send_as transmit new_id
  subs-attempt_send n w = ground arith

module _ (env : Env) (cfg : Config) (sub : Subscription) (r : EventRecord) (o : ℕ)
    (decoded : offset_of r.cursor ≡ ok o) where
  -- A result means that the event is on record.
  abbrev pub Ends : {A : Type 0} → Result A → SubscriptionStore → Type 0
  Ends (ok a) s = attempted sub.subscription_id r.event_id s ≡ true
  Ends (raise e) s = Unit

  abbrev pub Settles : {A : Type 0} → M A → Type 0
  Settles m =
      (w : World) → Moved env cfg sub r o decoded w.subs (m w).1.subs × Ends (m w).0 (m w).1.subs

  recorded-Ends :
      {A : Type 0} (x : Result A) (s : SubscriptionStore)
      → attempted sub.subscription_id r.event_id s ≡ true
      → Ends x s
  recorded-Ends (ok a) s h = h
  recorded-Ends (raise e) s h = tt

  after-send :
      {A : Type 0} (n : ℕ) (rest : DeliveryResult → M A)
      → ((result : DeliveryResult) → Delivers env cfg sub r o decoded (rest result))
      → Settles (attempt_send env cfg sub r n >>= rest)
  after-send {A} n rest h w =
      go (attempt_send env cfg sub r n w).0 (attempt_send env cfg sub r n w).1
        (subs-attempt_send env cfg sub r n w)
    where
      go :
          (x : Result DeliveryResult) (w' : World)
          → w'.subs ≡ w.subs
          → Moved env cfg sub r o decoded w.subs (continue rest (x, w')).1.subs
            × Ends (continue rest (x, w')).0 (continue rest (x, w')).1.subs
      go (ok result) w' e = let (moved, on) = h result w' in (rw (← e) moved, recorded-Ends _ _ on)
      go (raise x) w' e = (rw e (Moves-refl sub.subscription_id r.topic r.event_id o w.subs), tt)

  then-pure :
      (m : M (Unit {0})) (b : Bool)
      → Delivers env cfg sub r o decoded m
      → Delivers env cfg sub r o decoded (m >> pure b)
  then-pure m b h w = go (m w).0 (m w).1 (h w).0 (h w).1
    where
      go :
          (x : Result (Unit {0})) (w' : World)
          → Moved env cfg sub r o decoded w.subs w'.subs
          → attempted sub.subscription_id r.event_id w'.subs ≡ true
          → Moved env cfg sub r o decoded w.subs (continue (λ _. pure b) (x, w')).1.subs
            × (attempted sub.subscription_id r.event_id (continue (λ _. pure b) (x, w')).1.subs
                ≡ true)
      go (ok u) w' moved on = (moved, on)
      go (raise e) w' moved on = (moved, on)

  if-Delivers :
      {A : Type 0} (b : Bool) (m n : M A)
      → Delivers env cfg sub r o decoded m
      → Delivers env cfg sub r o decoded n
      → Delivers env cfg sub r o decoded (if b then m else n)
  if-Delivers true m n h k = h
  if-Delivers false m n h k = k

  inline_step :
      (left n : ℕ)
      → ((w : World)
          → Moved env cfg sub r o decoded w.subs
              (deliver_inline env cfg sub r left (n + 1) w).1.subs)
      → Settles (deliver_inline env cfg sub r (suc left) n)
  unfolding deliver_inline
  inline_step left n again = after-send n _ (λ result.
      if-Delivers result.ack _ _
        (then-pure (on_delivered env cfg sub r n result) true
          (on_delivered-Moved env cfg sub r o decoded n result))
        (if-Delivers (terminal env cfg result n) _ _
          (then-pure (on_terminal env cfg sub r n result) false
            (on_terminal-Moved env cfg sub r o decoded n result))
          (recorded-then env cfg sub r o decoded n retry result
            (λ _.
              sleep env cfg (backoff_delay env cfg n) >> deliver_inline env cfg sub r left (n + 1))
            (λ w on. again (record w { slept = w.slept ++ backoff_delay env cfg n ∷ [] })))))

  deliver_inline-Settles : (left n : ℕ) → Settles (deliver_inline env cfg sub r (suc left) n)
  unfolding deliver_inline
  deliver_inline-Settles zero n =
      inline_step zero n (λ w. Moves-refl sub.subscription_id r.topic r.event_id o w.subs)
  deliver_inline-Settles (suc left) n =
      inline_step (suc left) n (λ w. (deliver_inline-Settles left (n + 1) w).0)

  inline_pos : (k n : ℕ) → 0 < k → Settles (deliver_inline env cfg sub r k n)
  inline_pos zero n h = absurd (omega arith)
  inline_pos (suc left) n h = deliver_inline-Settles left n

  if-Settles : (b : Bool) (m n : M Bool) → Settles m → Settles n → Settles (if b then m else n)
  if-Settles true m n h k = h
  if-Settles false m n h k = k

  rest_of_queued-Moved :
      (result : DeliveryResult)
      → DoesRecorded sub.subscription_id r.topic r.event_id o
          (enqueue_retry env cfg sub r result >> (hand_off env cfg sub r >> pure false))
  unfolding enqueue_retry new_id now
  rest_of_queued-Moved result =
      DoesRecorded-bind sub.subscription_id r.topic r.event_id o
        (enqueue_retry env cfg sub r result) (λ _. hand_off env cfg sub r >> pure false)
        (λ w on. Moves-refl sub.subscription_id r.topic r.event_id o w.subs)
        (λ _.
          DoesRecorded-bind sub.subscription_id r.topic r.event_id o (hand_off env cfg sub r)
            (λ _. pure false) (hand_off-Moved env cfg sub r o decoded)
            (λ _ w on. Moves-refl sub.subscription_id r.topic r.event_id o w.subs))

  deliver_queued-Settles : Settles (deliver_queued env cfg sub r)
  unfolding deliver_queued
  deliver_queued-Settles = after-send 1 _ (λ result.
      if-Delivers result.ack _ _
        (then-pure (on_delivered env cfg sub r 1 result) true
          (on_delivered-Moved env cfg sub r o decoded 1 result))
        (if-Delivers (not result.retry || leb cfg.max_attempts 1) _ _
          (then-pure (on_terminal env cfg sub r 1 result) false
            (on_terminal-Moved env cfg sub r o decoded 1 result))
          (recorded-then env cfg sub r o decoded 1 retry result
            (λ _. enqueue_retry env cfg sub r result >> (hand_off env cfg sub r >> pure false))
            (rest_of_queued-Moved result))))

  -- With at least one attempt configured, a delivery of an event, inline or queued, and whatever
  -- the transport does: attempts on record stay there; the mark of the topic stays where it is or
  -- lower, or an attempt of the event is on record and the mark is at most just past the event; and
  -- if the delivery returns, an attempt of the event is on record.
  pub deliver_one-Settles : 0 < cfg.max_attempts → Settles (deliver_one env cfg sub r)
  unfolding deliver_one
  deliver_one-Settles h =
      if-Settles cfg.queued _ _ deliver_queued-Settles (inline_pos cfg.max_attempts 1 h)
