-- ===== src/SubscriptionStore.antt =====
-- runtime/memory/subscription_store.py, with `DeadLetter` and `DeliveryAttempt` of
-- runtime/contracts.py. A high-water mark `h` (-1 is "before the first event") is kept as `h + 1`,
-- the offset that is next to be handed off. The store holds live references: the object under an id
-- is the one that its holders mutate, so holders read it again from here.
use a2a_events_python.Common.{
  ℕ, ◌≡◌, Bool, true, false, ◌&&◌, Option, none, some, List, [], ◌∷◌, ◌++◌, map, arith, filter_by,
  if◌then◌else◌, Text, text, text_eq, text_eq_iff, is_empty, Dict, get, put, get_or, values,
  get-put,
}
use a2a_events_python.Models.{Subscription}

pub record DeadLetter : Type 0 where
  pub subscription_id : Text
  pub event_id : Text
  pub cursor : Text
  pub reason : Text

pub data AttemptStatus : Type 0 where
  delivered retry dead_letter : AttemptStatus

pub record DeliveryAttempt : Type 0 where
  pub delivery_attempt_id : Text
  pub subscription_id : Text
  pub event_id : Text
  pub cursor : Text
  pub attempt : ℕ
  pub status : AttemptStatus
  pub last_status_code : Option ℕ
  pub last_error : Option Text

pub record Ack : Type 0 where
  pub subscription_id : Text
  pub event_id : Text
  pub cursor : Text

pub record SubscriptionStore : Type 0 where
  pub subs : Dict Subscription
  pub hw : Dict (Dict ℕ)
  pub attempts : List DeliveryAttempt
  pub acks : List Ack

unfoldable pub init : SubscriptionStore
init = record { subs = []; hw = []; attempts = []; acks = [] }

unfoldable pub add : Subscription → Dict ℕ → SubscriptionStore → SubscriptionStore
add sub high_water s = record s {
  subs = put sub.subscription_id sub s.subs;
  hw = put sub.subscription_id high_water s.hw;
}

unfoldable pub get_sub : Text → SubscriptionStore → Option Subscription
get_sub subscription_id s = get subscription_id s.subs

unfoldable pub list_all : SubscriptionStore → List Subscription
list_all s = values s.subs

unfoldable pub update : Subscription → SubscriptionStore → SubscriptionStore
update sub s = record s { subs = put sub.subscription_id sub s.subs }

unfoldable pub high_water : Text → SubscriptionStore → Dict ℕ
high_water subscription_id s = get_or [] subscription_id s.hw

-- high_water(subscription_id).get(topic, -1), as the next offset
unfoldable pub mark : Text → Text → SubscriptionStore → ℕ
unfolding high_water
mark subscription_id topic s = get_or 0 topic (high_water subscription_id s)

unfoldable pub set_high_water : Text → Text → ℕ → SubscriptionStore → SubscriptionStore
set_high_water subscription_id topic next s = record s {
  hw = put subscription_id (put topic next (get_or [] subscription_id s.hw)) s.hw;
}

abbrev same_ack : Text → Text → Ack → Bool
same_ack subscription_id event_id a =
    text_eq a.subscription_id subscription_id && text_eq a.event_id event_id

-- `_acks` is a dictionary by the pair of the ids
unfoldable pub put_ack : Text → Text → Text → List Ack → List Ack
put_ack subscription_id event_id cursor [] =
    record { subscription_id = subscription_id; event_id = event_id; cursor = cursor } ∷ []
put_ack subscription_id event_id cursor (a ∷ acks) =
    if same_ack subscription_id event_id a
    then record a { cursor = cursor } ∷ acks
    else a ∷ put_ack subscription_id event_id cursor acks

unfoldable pub record_ack : Text → Text → Text → SubscriptionStore → SubscriptionStore
record_ack subscription_id event_id cursor s = record s {
  acks = put_ack subscription_id event_id cursor s.acks;
}

unfoldable pub record_attempt : DeliveryAttempt → SubscriptionStore → SubscriptionStore
record_attempt attempt s = record s { attempts = s.attempts ++ attempt ∷ [] }

unfoldable pub delivery_attempts : Text → SubscriptionStore → List DeliveryAttempt
delivery_attempts subscription_id s =
    filter_by (λ a. text_eq a.subscription_id subscription_id) s.attempts

abbrev pub is_dead_letter : AttemptStatus → Bool
is_dead_letter dead_letter = true
is_dead_letter delivered = false
is_dead_letter retry = false

-- a.last_error or "failed"
abbrev reason_of : Option Text → Text
reason_of none = text "failed"
reason_of (some e) = if is_empty e then text "failed" else e

abbrev pub dead_letter_of : DeliveryAttempt → DeadLetter
dead_letter_of a = record {
  subscription_id = a.subscription_id;
  event_id = a.event_id;
  cursor = a.cursor;
  reason = reason_of a.last_error;
}

unfoldable pub dead_letters : SubscriptionStore → List DeadLetter
dead_letters s = map dead_letter_of (filter_by (λ a. is_dead_letter a.status) s.attempts)

-- A mark that is set is read back, and no other mark changes.
pub mark-set_high_water :
    (sid topic sid' topic' : Text) (next : ℕ) (s : SubscriptionStore)
    → mark sid' topic' (set_high_water sid topic next s)
      ≡ (if text_eq sid sid' && text_eq topic topic' then next else mark sid' topic' s)
unfolding mark set_high_water high_water
mark-set_high_water sid topic sid' topic' next s = ground (
  arith,
  text_eq_iff sid sid',
  text_eq_iff topic topic',
  get-put sid sid' (put topic next (get_or [] sid s.hw)) s.hw,
  get-put topic topic' next (get_or [] sid s.hw),
)
