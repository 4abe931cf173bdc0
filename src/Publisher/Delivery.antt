-- ===== src/Publisher/Delivery.antt =====
-- One delivery of `A2AEventsPublisher`: sending an event, recording the attempt, acknowledging,
-- dead-lettering, and the retries, inline or queued.
pub mod Marks
pub mod Attempts
pub mod Bound
use a2a_events_python.Common.{
  ℕ, zero, suc, ◌+◌, ◌-◌, Bool, true, false, not, ◌||◌, Option, none, some, List, [], ◌∷◌, ◌++◌,
  ◌==◌, leb, ltb, if◌then◌else◌, Text, text, get, put,
}
use a2a_events_python.Errors.{Result, ok, raise, protocol, ErrorCode, cursor_expired}
use a2a_events_python.Exec.{◌>>=◌, ◌>>◌, pure, throw, lift, gets, modify}
use a2a_events_python.Models.{Subscription}
use a2a_events_python.Cursor.{encode, offset_of, text_lt}
use a2a_events_python.EventStore.{EventRecord}
use a2a_events_python.SubscriptionStore
use a2a_events_python.SubscriptionStore.{AttemptStatus, delivered, retry, dead_letter, mark}
use a2a_events_python.RetryQueue
use a2a_events_python.Metrics
use a2a_events_python.HttpDelivery.{DeliveryResult}
use a2a_events_python.Publisher.{
  M, Env, Config, on_subs, on_queue, on_metrics, deref, now, new_id, read,
}
use a2a_events_python.Publisher.Send.{attempt_send, backoff_delay}

-- run an action and keep what it raised: the `try` around a read
abbrev pub catching : {A : Type 0} → M A → M (Result A)
catching m w = let (r, w') = m w in (ok r, w')

module _ (env : Env) (cfg : Config) where
  abbrev status_text : AttemptStatus → Text
  status_text delivered = text "delivered"
  status_text retry = text "retry"
  status_text dead_letter = text "dead_letter"

  -- `_record_attempt`
  unfoldable pub record_attempt :
      Subscription → EventRecord → ℕ → AttemptStatus → DeliveryResult → M (Unit {0})
  unfolding new_id
  record_attempt sub r attempt status result = do
    on_metrics (
        Metrics.incr (text "delivery_attempts") 1
          ((text "status", status_text status) ∷ (text "topic", r.topic) ∷ []))
    hex ← new_id env
    on_subs (
        SubscriptionStore.record_attempt (record {
          delivery_attempt_id = text "da_" ++ hex;
          subscription_id = sub.subscription_id;
          event_id = r.event_id;
          cursor = r.cursor;
          attempt = attempt;
          status = status;
          last_status_code = result.status_code;
          last_error = result.reason;
        }))

  -- the first of the records read, if its offset is the one asked for
  abbrev record_with : ℕ → List EventRecord → Result (Option EventRecord)
  record_with offset [] = ok none
  record_with offset (r ∷ rs) = elim (offset_of r.cursor) [
    | ok o ↦ ok (if o == offset then some r else none)
    | raise e ↦ raise e
  ]

  abbrev predecessor : Text → ℕ → Option Text
  predecessor topic zero = none
  predecessor topic (suc n) = some (encode topic n)

  -- the second `try` of `_record_at`
  abbrev reread : ℕ → Result (List EventRecord × Option Text) → M (Option EventRecord)
  reread offset (ok (records, _)) = lift (record_with offset records)
  reread offset (raise (protocol code)) = pure none
  reread offset (raise e) = throw e

  abbrev is_cursor_expired : ErrorCode → Bool
  is_cursor_expired cursor_expired = true
  is_cursor_expired _ = false

  abbrev first_read :
      Text → Text → ℕ → Result (List EventRecord × Option Text) → M (Option EventRecord)
  first_read topic cursor offset (ok (records, _)) = lift (record_with offset records)
  first_read topic cursor offset (raise (protocol code)) =
      if is_cursor_expired code
      then (do again ← catching (read env topic none (some cursor) 1); reread offset again)
      else pure none
  first_read topic cursor offset (raise e) = throw e

  -- `_record_at`
  unfoldable pub record_at : Text → Text → M (Option EventRecord)
  record_at topic cursor = do
    offset ← lift (offset_of cursor)
    answer ← catching (read env topic (predecessor topic offset) (some cursor) 1)
    first_read topic cursor offset answer

  abbrev event_id_of : Option EventRecord → Option Text
  event_id_of none = none
  event_id_of (some r) = some r.event_id

  -- `_resolve_event_id`, where no id is given
  abbrev pub resolve_event_id : Text → Text → Option Text → M (Option Text)
  resolve_event_id topic cursor (some event_id) = pure (some event_id)
  resolve_event_id topic cursor none = do found ← record_at topic cursor; pure (event_id_of found)

  -- current is None or cursor > current
  abbrev moves_on : Text → Option Text → Bool
  moves_on cursor none = true
  moves_on cursor (some current) = text_lt current cursor

  -- the first statement of `_advance`: the acknowledged cursor of the topic
  unfoldable pub move_cursor : Subscription → Text → Text → M (Unit {0})
  move_cursor sub topic cursor = do
    live ← gets (deref sub)
    if moves_on cursor (get topic live.cursors)
        then on_subs
            (SubscriptionStore.update (record live { cursors = put topic cursor live.cursors }))
        else pure tt

  -- the second: the high-water mark, which moves up only
  unfoldable pub raise_mark : Subscription → Text → ℕ → M (Unit {0})
  raise_mark sub topic offset = do
    next ← gets (λ w. mark sub.subscription_id topic w.subs)
    if ltb next (offset + 1)
        then on_subs (SubscriptionStore.set_high_water sub.subscription_id topic (offset + 1))
        else pure tt

  abbrev pub ack_event : Subscription → Text → Option Text → M (Unit {0})
  ack_event sub cursor none = pure tt
  ack_event sub cursor (some event_id) =
      on_subs (SubscriptionStore.record_ack sub.subscription_id event_id cursor)

  -- `_advance`
  unfoldable pub advance : Subscription → Text → Text → Option Text → M (Unit {0})
  unfolding move_cursor raise_mark
  advance sub topic cursor event_id = do
    move_cursor sub topic cursor
    offset ← lift (offset_of cursor)
    raise_mark sub topic offset
    found ← resolve_event_id topic cursor event_id
    ack_event sub cursor found

  unfoldable pub on_delivered : Subscription → EventRecord → ℕ → DeliveryResult → M (Unit {0})
  unfolding record_attempt advance
  on_delivered sub r attempt result = do
    record_attempt sub r attempt delivered result
    t ← now env
    on_metrics (
        Metrics.observe (text "delivery_latency_seconds") (t - r.created_at)
          ((text "topic", r.topic) ∷ []))
    advance sub r.topic r.cursor (some r.event_id)

  -- the unconditional `set_high_water` of `_on_terminal` and `_deliver_queued`
  unfoldable pub hand_off : Subscription → EventRecord → M (Unit {0})
  hand_off sub r = do
    offset ← lift (offset_of r.cursor)
    on_subs (SubscriptionStore.set_high_water sub.subscription_id r.topic (offset + 1))

  unfoldable pub on_terminal : Subscription → EventRecord → ℕ → DeliveryResult → M (Unit {0})
  unfolding record_attempt hand_off
  on_terminal sub r attempt result = do
    record_attempt sub r attempt dead_letter result
    hand_off sub r

  abbrev pub sleep : ℕ → M (Unit {0})
  sleep delay = modify λ w. record w { slept = w.slept ++ delay ∷ [] }

  abbrev pub terminal : DeliveryResult → ℕ → Bool
  terminal result attempt = not result.retry || attempt == cfg.max_attempts

  -- the loop of `_deliver_one`, with the attempts left; it returns False after the last
  unfoldable pub deliver_inline : Subscription → EventRecord → ℕ → ℕ → M Bool
  unfolding attempt_send on_delivered on_terminal
  deliver_inline sub r zero attempt = pure false
  deliver_inline sub r (suc left) attempt =
      let again = deliver_inline sub r left (attempt + 1) in
      do
        result ← attempt_send env cfg sub r attempt
        if result.ack
            then (do on_delivered sub r attempt result; pure true)
            else if terminal result attempt
            then (do on_terminal sub r attempt result; pure false)
            else (do
              record_attempt sub r attempt retry result
              sleep (backoff_delay env cfg attempt)
              again)

  unfoldable pub enqueue_retry : Subscription → EventRecord → DeliveryResult → M (Unit {0})
  enqueue_retry sub r result = do
    hex ← new_id env
    t ← now env
    on_queue (
        RetryQueue.enqueue (record {
          retry_id = text "rty_" ++ hex;
          subscription_id = sub.subscription_id;
          topic = r.topic;
          cursor = r.cursor;
          event_id = r.event_id;
          attempt = 1;
          next_retry_at = t + backoff_delay env cfg 1;
          last_error = result.reason;
        }))

  -- `_deliver_queued`
  unfoldable pub deliver_queued : Subscription → EventRecord → M Bool
  unfolding attempt_send on_delivered on_terminal enqueue_retry
  deliver_queued sub r = do
    result ← attempt_send env cfg sub r 1
    if result.ack
        then (do on_delivered sub r 1 result; pure true)
        else if not result.retry || leb cfg.max_attempts 1
        then (do on_terminal sub r 1 result; pure false)
        else (do
          record_attempt sub r 1 retry result
          enqueue_retry sub r result
          hand_off sub r
          pure false)

  -- `_deliver_one`
  unfoldable pub deliver_one : Subscription → EventRecord → M Bool
  deliver_one sub r =
      if cfg.queued then deliver_queued sub r else deliver_inline sub r cfg.max_attempts 1
