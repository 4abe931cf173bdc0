-- ===== src/Publisher/Guards.antt =====
-- The guards of `A2AEventsPublisher`: leases, cards, delivery modes and targets.
use a2a_events_python.Common.{
  arith, ℕ, ◌≤◌, ◌≡◌, ◌↔◌, not, Option, none, some, [], ◌∷◌, ltb, if◌then◌else◌, any_by, Text,
}
use a2a_events_python.Errors.{
  Result, ok, raise, protocol, lease_too_short, lease_too_long, subscriber_card_unreachable,
  delivery_mode_not_supported, delivery_endpoint_not_declared, ◌>>=◌, ◌>>◌,
}
use a2a_events_python.Models.{
  DeliveryMode, webhook, a2a_message, mode_eq, DeliveryPreference, ResolvedDelivery,
}
use a2a_events_python.Ssrf.{check_endpoint}
use a2a_events_python.Publisher.{Env, Config, SubscriberCard}

module _ (env : Env) (cfg : Config) where
  unfoldable pub check_lease : ℕ → Result (Unit {0})
  check_lease lease_seconds =
      if ltb lease_seconds cfg.min_lease_seconds
      then raise (protocol lease_too_short)
      else if ltb cfg.max_lease_seconds lease_seconds
      then raise (protocol lease_too_long)
      else ok tt

  abbrev reachable : Result SubscriberCard → Result SubscriberCard
  reachable (ok card) = ok card
  reachable (raise (protocol code)) = raise (protocol code)
  reachable (raise e) = raise (protocol subscriber_card_unreachable)

  unfoldable pub resolve_card : Text → Result SubscriberCard
  resolve_card url = reachable (env.card_resolver url)

  unfoldable pub check_delivery_mode : DeliveryMode → SubscriberCard → Result (Unit {0})
  check_delivery_mode mode card =
      if not (any_by (mode_eq mode) card.accepted_delivery_modes)
      then raise (protocol delivery_mode_not_supported)
      else ok tt

  -- `if not card.receive_url`: none and the empty text count as missing
  abbrev declared : Option Text → Result Text
  declared none = raise (protocol delivery_endpoint_not_declared)
  declared (some []) = raise (protocol delivery_endpoint_not_declared)
  declared (some (c ∷ cs)) = ok (c ∷ cs)

  abbrev target_in : DeliveryMode → SubscriberCard → Option Text
  target_in webhook card = card.receive_url
  target_in a2a_message card = card.a2a_endpoint

  abbrev resolved : DeliveryMode → Text → ResolvedDelivery
  resolved webhook url = record {
    mode = webhook;
    resolved_url = some url;
    resolved_endpoint = none;
  }
  resolved a2a_message url = record {
    mode = a2a_message;
    resolved_url = none;
    resolved_endpoint = some url;
  }

  unfoldable pub resolve_delivery_target :
      DeliveryPreference → SubscriberCard → Result ResolvedDelivery
  resolve_delivery_target delivery card = do
    url ← declared (target_in delivery.mode card)
    check_endpoint env.urls cfg.ssrf_policy url
    ok (resolved delivery.mode url)

  -- A lease is accepted exactly if it lies between the configured bounds.
  pub check_lease_iff :
      (lease_seconds : ℕ)
      → (check_lease lease_seconds ≡ ok tt)
        ↔ ((cfg.min_lease_seconds ≤ lease_seconds) × (lease_seconds ≤ cfg.max_lease_seconds))
  unfolding check_lease
  check_lease_iff lease_seconds = (λ h. ground arith, λ h. ground arith)
