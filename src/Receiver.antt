-- ===== src/Receiver.antt =====
-- receiver.py: what a subscriber does with a delivery. A body, and what stands in a message's
-- metadata, are any JSON: a method that a value lacks raises `attribute_error`, and a list or an
-- object in a set raises `type_error`. The sets and lists keep the order of insertion.
pub mod Trusted
pub mod Once
pub mod Again
pub mod Framing
pub mod Delivered
use a2a_events_python.Common.{
  ℕ, ◌-◌, Bool, true, false, not, Option, none, some, List, [], ◌∷◌, ◌++◌, leb, if◌then◌else◌, Text,
  text, Dict, get, put, any_by,
}
use a2a_events_python.Json.{Json, str, arr, obj, Fields, get_field, scalar_eq, truthy}
use a2a_events_python.Errors.{Result, ok, raise, key_error, type_error, attribute_error}
use a2a_events_python.Exec.{Exec, ◌>>=◌, ◌>>◌, pure, lift, gets, modify}
use a2a_events_python.HttpDelivery.{DeliveryResult}
use a2a_events_python.Signing.{Crypto, signing_input, without_prefix}
use a2a_events_python.Signing.Base64.{b64url_decode}

-- `received`, `_seen` and `_delivery_tokens`
pub record EventReceiver : Type 0 where
  pub received : List Fields
  pub seen : List Json
  pub delivery_tokens : Dict Text

abbrev pub init : EventReceiver
init = record { received = []; seen = []; delivery_tokens = [] }

unfoldable pub register_delivery_token : Text → Text → EventReceiver → EventReceiver
register_delivery_token subscription_id token r = record r {
  delivery_tokens = put subscription_id token r.delivery_tokens;
}

-- What is set up once, and Python's `lower`, `strip` and `datetime.fromisoformat`: a time in
-- microseconds, with UTC for a missing zone. The hook may raise.
pub record Setup : Type 0 where
  pub max_skew : Option ℕ
  pub on_event : Option (Fields → Result (Option DeliveryResult))
  pub lower : Text → Text
  pub strip : Text → Text
  pub fromisoformat : Text → Option ℕ

-- What a call meets: the resolver's answers, and the time.
pub record Moment (Public : Type 0) : Type 0 where
  pub resolve_key : Json → Result Public
  pub now : ℕ

abbrev pub refuse : ℕ → Text → DeliveryResult
refuse status reason = record {
  ack = false;
  retry = false;
  status_code = some status;
  reason = some reason;
}

abbrev pub accepted : ℕ → DeliveryResult
accepted status = record { ack = true; retry = true; status_code = some status; reason = none }

abbrev token_is : Option Text → Json → Bool
token_is none presented = true
token_is (some token) presented = scalar_eq (str token) presented

-- `_delivery_token_ok`, with `none` for an event without "a2asubscription"
unfoldable pub delivery_token_ok : Option Json → Json → Dict Text → Result Bool
delivery_token_ok (some (str id)) presented tokens = ok (token_is (get id tokens) presented)
delivery_token_ok (some (arr xs)) presented tokens = raise type_error
delivery_token_ok (some (obj fs)) presented tokens = raise type_error
delivery_token_ok _ presented tokens = ok true

-- abs(now - ts)
abbrev distance : ℕ → ℕ → ℕ
distance a b = if leb a b then b - a else a - b

-- `_within_skew`
unfoldable pub within_skew : Setup → ℕ → Text → Bool
within_skew setup now timestamp = elim setup.max_skew [
  | none ↦ true
  | some most ↦ elim (setup.fromisoformat timestamp) [
    | none ↦ false
    | some ts ↦ leb (distance now ts) most
  ]
]

-- event_id in self._seen
unfoldable pub is_seen : Json → List Json → Result Bool
is_seen (arr xs) seen = raise type_error
is_seen (obj fs) seen = raise type_error
is_seen id seen = ok (any_by (scalar_eq id) seen)

-- self._seen.add(event_id); self.received.append(event)
abbrev pub keep : Json → Fields → EventReceiver → EventReceiver
keep id event r = record r { received = r.received ++ event ∷ []; seen = r.seen ++ id ∷ [] }

abbrev pub call_hook :
    Option (Fields → Result (Option DeliveryResult)) → Fields → Result (Option DeliveryResult)
call_hook none event = ok none
call_hook (some hook) event = hook event

-- the end of `accept`: an id that was not seen
unfoldable pub accept_new : Setup → Json → Fields → Exec EventReceiver DeliveryResult
accept_new setup id event = do
  override ← lift (call_hook setup.on_event event)
  elim override [
    | none ↦ (do modify (keep id event); pure (accepted 204))
    | some r ↦ (do if r.ack then modify (keep id event) else pure tt; pure r)
  ]

-- `accept` from the event's id on
unfoldable pub accept_id : Setup → Option Json → Fields → Exec EventReceiver DeliveryResult
accept_id setup none event = pure (refuse 400 (text "event has no id"))
accept_id setup (some id) event =
    if not (truthy id) then pure (refuse 400 (text "event has no id")) else (do
      seen ← gets (λ r. r.seen)
      again ← lift (is_seen id seen)
      if again then pure (accepted 200) else accept_new setup id event)

-- The event of a call. What is no dict has no `get`.
abbrev pub dict_of : Json → Result Fields
dict_of (obj fs) = ok fs
dict_of _ = raise attribute_error

module _ {Private Public : Type 0} (crypto : Crypto Private Public) (setup : Setup) where
  -- `verify` on any JSON. `startswith` and `encode` are the texts'; the signature is decoded first.
  abbrev verify_raw : Public → Json → Fields → Option Text → Result Bool
  verify_raw key timestamp event none = ok false
  verify_raw key (str timestamp) event (some raw) =
      ok (crypto.verify key raw (signing_input crypto timestamp event))
  verify_raw key _ event (some raw) = raise attribute_error

  unfoldable pub verify_json : Public → Json → Fields → Json → Result Bool
  verify_json key timestamp event (str signature) =
      verify_raw key timestamp event (b64url_decode (without_prefix signature))
  verify_json key timestamp event _ = raise attribute_error

  -- A `KeyError` of the resolver is caught.
  abbrev pub known : Result Public → Result (Option Public)
  known (ok key) = ok (some key)
  known (raise key_error) = ok none
  known (raise e) = raise e

  -- A timestamp that was verified is a text.
  abbrev pub fresh : ℕ → Json → Bool
  fresh now (str timestamp) = within_skew setup now timestamp
  fresh now _ = false

  -- `accept` from the key on
  unfoldable pub accept_with :
      Option Public → ℕ → Fields → Json → Json → Exec EventReceiver DeliveryResult
  accept_with none now event timestamp signature = pure (refuse 401 (text "unknown signing key"))
  accept_with (some key) now event timestamp signature = do
    good ← lift (verify_json key timestamp event signature)
    if not good
        then pure (refuse 401 (text "bad signature"))
        else if not (fresh now timestamp)
        then pure (refuse 403 (text "timestamp out of skew"))
        else accept_id setup (get_field (text "id") event) event

  unfoldable pub accept :
      Moment Public → Json → Json → Json → Json → Json → Exec EventReceiver DeliveryResult
  accept moment body key_id timestamp signature token = do
    event ← lift (dict_of body)
    tokens ← gets (λ r. r.delivery_tokens)
    trusted ← lift (delivery_token_ok (get_field (text "a2asubscription") event) token tokens)
    if not trusted then pure (refuse 401 (text "bad delivery token")) else (do
      key ← lift (known (moment.resolve_key key_id))
      accept_with key moment.now event timestamp signature)
