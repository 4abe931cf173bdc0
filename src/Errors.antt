-- ===== src/Errors.antt =====
-- errors.py: the symbolic error codes, and what a call raises.
-- An exception carries its code. The message texts and the details of a raise are left out.
use a2a_events_python.Common.{ℕ, ◌≡◌, refl, ◌⊎◌, inl, inr}

-- `ErrorCode`
pub data ErrorCode : Type 0 where
  extension_not_supported topic_not_found topic_not_authorized : ErrorCode
  selector_not_supported invalid_selector invalid_cursor cursor_expired : ErrorCode
  subscription_not_found subscription_expired delivery_mode_not_supported : ErrorCode
  subscriber_card_unreachable subscriber_card_invalid : ErrorCode
  delivery_endpoint_not_declared delivery_endpoint_blocked signature_invalid : ErrorCode
  replay_not_supported rate_limited lease_too_long lease_too_short : ErrorCode

-- What a function of the source raises: `A2AEventsError` with its code, Python's own errors where
-- the source raises or meets them, and whatever a callback or a third-party call raises.
pub data Exn : Type 0 where
  protocol : ErrorCode → Exn
  value_error key_error index_error type_error attribute_error assertion_error : Exn
  -- The bound on the rounds of a loop was reached. The source has no such exception.
  out_of_fuel : Exn
  foreign : ℕ → Exn

pub data Result {ℓ} (A : Type ℓ) : Type ℓ where
  ok : A → Result A
  raise : Exn → Result A

infixl 10 ◌>>=◌ ◌>>◌
abbrev pub ◌>>=◌ {ℓ κ} : {A : Type ℓ} {B : Type κ} → Result A → (A → Result B) → Result B
ok a >>= f = f a
raise e >>= f = raise e

abbrev pub ◌>>◌ {ℓ} : {B : Type ℓ} → Result (Unit {0}) → Result B → Result B
m >> k = m >>= λ _. k

-- To split on a computed outcome and keep the equation.
pub Result-cases :
    {A : Type 0} (x : Result A) → ((a : A) × (x ≡ ok a)) ⊎ ((e : Exn) × (x ≡ raise e))
Result-cases (ok a) = inl (a, refl)
Result-cases (raise e) = inr (e, refl)
