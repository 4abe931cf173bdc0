-- ===== src/Publisher/Dispatch/Frame.antt =====
-- What a delivery leaves alone: the event store.
use a2a_events_python.Common.{
  ℕ, zero, suc, ◌+◌, ◌≡◌, refl, ◌∙◌, Bool, true, false, not, ◌||◌, some, List, [], ◌∷◌, arith, leb,
  ltb, if◌then◌else◌, Text,
}
use a2a_events_python.Errors.{Result, ok, raise}
use a2a_events_python.Exec.{◌>>=◌, ◌>>◌, continue, pure, lift}
use a2a_events_python.Models.{Subscription, Topic}
use a2a_events_python.Cursor.{offset_of}
use a2a_events_python.EventStore.{EventRecord}
use a2a_events_python.HttpDelivery.{DeliveryResult}
use a2a_events_python.Publisher.{World, M, Env, Config, get_topic, now, new_id, transmit}
use a2a_events_python.Publisher.Send.{send_as, attempt_send}
use a2a_events_python.Publisher.Delivery.{
  record_attempt, move_cursor, raise_mark, advance, on_delivered, hand_off, on_terminal,
  deliver_inline, enqueue_retry, deliver_queued, deliver_one, terminal,
}
use a2a_events_python.Publisher.Dispatch.{handle_record, handle_page, save_scan}

-- An action that leaves the event store as it is.
abbrev pub KeepsEvents : {A : Type 0} → M A → Type 0
KeepsEvents m = (w : World) → (m w).1.events ≡ w.events

pub bind-KeepsEvents :
    {A B : Type 0} (m : M A) (f : A → M B)
    → KeepsEvents m
    → ((a : A) → KeepsEvents (f a))
    → KeepsEvents (m >>= f)
bind-KeepsEvents {A = A} {B = B} m f h k w = go (m w).0 (m w).1 (h w)
  where
    go : (x : Result A) (v : World) → v.events ≡ w.events → (continue f (x, v)).1.events ≡ w.events
    go (ok a) v e = k a v ∙ e
    go (raise r) v e = e

if-KeepsEvents :
    {A : Type 0} (b : Bool) (m n : M A)
    → KeepsEvents m
    → KeepsEvents n
    → KeepsEvents (if b then m else n)
if-KeepsEvents true m n h k = h
if-KeepsEvents false m n h k = k

get_topic-KeepsEvents : (name : Text) → KeepsEvents (get_topic name)
unfolding get_topic
get_topic-KeepsEvents name w = ground arith

module _ (env : Env) (cfg : Config) (sub : Subscription) (r : EventRecord) where
  attempt_send-KeepsEvents : (n : ℕ) → KeepsEvents (attempt_send env cfg sub r n)
  unfolding attempt_send send_as transmit new_id
  attempt_send-KeepsEvents n =
      bind-KeepsEvents (get_topic r.topic) _ (get_topic-KeepsEvents r.topic)
        (λ topic w. ground arith)

  hand_off-KeepsEvents : KeepsEvents (hand_off env cfg sub r)
  unfolding hand_off
  hand_off-KeepsEvents w = ground arith

  advance-KeepsEvents :
      (cursor event_id : Text) → KeepsEvents (advance env cfg sub r.topic cursor (some event_id))
  unfolding advance move_cursor raise_mark
  advance-KeepsEvents cursor event_id w = ground arith

  on_delivered-KeepsEvents :
      (n : ℕ) (result : DeliveryResult) → KeepsEvents (on_delivered env cfg sub r n result)
  unfolding on_delivered record_attempt new_id now
  on_delivered-KeepsEvents n result w = advance-KeepsEvents r.cursor r.event_id _

  on_terminal-KeepsEvents :
      (n : ℕ) (result : DeliveryResult) → KeepsEvents (on_terminal env cfg sub r n result)
  unfolding on_terminal record_attempt new_id
  on_terminal-KeepsEvents n result w = hand_off-KeepsEvents _

  then_pure : (m : M (Unit {0})) (b : Bool) → KeepsEvents m → KeepsEvents (m >> pure b)
  then_pure m b h = bind-KeepsEvents m (λ _. pure b) h (λ _ w. refl)

  deliver_inline-KeepsEvents : (left n : ℕ) → KeepsEvents (deliver_inline env cfg sub r left n)
  unfolding deliver_inline record_attempt new_id
  deliver_inline-KeepsEvents zero n = λ w. refl
  deliver_inline-KeepsEvents (suc left) n =
      bind-KeepsEvents (attempt_send env cfg sub r n) _ (attempt_send-KeepsEvents n) (λ result.
        if-KeepsEvents result.ack _ _
          (then_pure (on_delivered env cfg sub r n result) true (on_delivered-KeepsEvents n result))
          (if-KeepsEvents (terminal env cfg result n) _ _
            (then_pure (on_terminal env cfg sub r n result) false
              (on_terminal-KeepsEvents n result))
            (λ w. deliver_inline-KeepsEvents left (n + 1) _)))

  deliver_queued-KeepsEvents : KeepsEvents (deliver_queued env cfg sub r)
  unfolding deliver_queued record_attempt enqueue_retry new_id now
  deliver_queued-KeepsEvents =
      bind-KeepsEvents (attempt_send env cfg sub r 1) _ (attempt_send-KeepsEvents 1) (λ result.
        if-KeepsEvents result.ack _ _
          (then_pure (on_delivered env cfg sub r 1 result) true (on_delivered-KeepsEvents 1 result))
          (if-KeepsEvents (not result.retry || leb cfg.max_attempts 1) _ _
            (then_pure (on_terminal env cfg sub r 1 result) false
              (on_terminal-KeepsEvents 1 result))
            (λ w. then_pure (hand_off env cfg sub r) false hand_off-KeepsEvents _)))

  deliver_one-KeepsEvents : KeepsEvents (deliver_one env cfg sub r)
  unfolding deliver_one
  deliver_one-KeepsEvents =
      if-KeepsEvents cfg.queued _ _ deliver_queued-KeepsEvents
        (deliver_inline-KeepsEvents cfg.max_attempts 1)

module _ (env : Env) (cfg : Config) (sub : Subscription) (model : Topic) where
  if_hit-KeepsEvents :
      (r : EventRecord) (hit : Bool)
      → KeepsEvents (if hit then deliver_one env cfg sub r >>= (λ acked. pure tt) else pure tt)
  if_hit-KeepsEvents r true =
      bind-KeepsEvents (deliver_one env cfg sub r) (λ acked. pure tt)
        (deliver_one-KeepsEvents env cfg sub r) (λ _ w. refl)
  if_hit-KeepsEvents r false = λ w. refl

  handle_record-KeepsEvents : (r : EventRecord) → KeepsEvents (handle_record env cfg sub model r)
  unfolding handle_record
  handle_record-KeepsEvents r =
      bind-KeepsEvents (lift _) _ (λ w. refl) (λ hit w. if_hit-KeepsEvents r hit _)

  pub handle_page-KeepsEvents :
      (rs : List EventRecord) (scan processed : ℕ)
      → KeepsEvents (handle_page env cfg sub model scan processed rs)
  unfolding handle_page
  handle_page-KeepsEvents [] scan processed = λ w. refl
  handle_page-KeepsEvents (r ∷ rs) scan processed =
      let skip = handle_page-KeepsEvents rs scan processed in
      let next = λ (o : ℕ). handle_page-KeepsEvents rs (o + 1) (processed + 1) in
      bind-KeepsEvents (lift (offset_of r.cursor)) _ (λ w. refl)
        (λ o. if-KeepsEvents (ltb o scan) _ _ skip (
          bind-KeepsEvents (handle_record env cfg sub model r) _ (handle_record-KeepsEvents r)
            (λ _. next o)))

  pub save_scan-KeepsEvents :
      (topic : Text) (scan : ℕ) → KeepsEvents (save_scan env cfg sub topic scan)
  unfolding save_scan
  save_scan-KeepsEvents topic scan w = ground arith
