-- ===== src/AgentCard/Trust.antt =====
-- What a card has passed when it is parsed.
use a2a_events_python.Common.{
  ◌≡◌, ◌≢◌, refl, ◌⊎◌, inl, inr, Bool, true, false, not, ◌&&◌, Option, none, some, List, [], ◌∷◌,
  if◌then◌else◌, Bool-cases, Text, text, text_eq, text_eq_iff,
}
use mathlib.Core.Path.{subst}
use a2a_events_python.Models.{DeliveryMode}
use a2a_events_python.Json.{Json, str, get_field}
use a2a_events_python.Errors.{Result, ok, raise, ◌>>=◌}
use a2a_events_python.AgentCard.{
  Url, Python, CardTrustPolicy, ParsedCard, same_origin, check_origin, check_endpoint_trust,
  check_card, parse_subscriber_card, passes, allowed, ask, host_of, dict_of, as_json, invalid,
  find_subscriber_extension, a2a_endpoint_of, declared_modes, modes_of, non_null, or_both,
}

-- What a chain that returns did: its first part returned, and the rest from there.
returned :
    {A B : Type 0} (m : Result A) (f : A → Result B) (b : B)
    → (m >>= f) ≡ ok b
    → (a : A) × (m ≡ ok a) × (f a ≡ ok b)
returned (ok a) f b h = (a, refl, h)
returned (raise e) f b h = absurd (cc)

ok-injective : {A : Type 0} {a b : A} → ok a ≡ ok b → a ≡ b
ok-injective h = cc

-- a check that is not set, or that has said yes
abbrev pub Passed : Option (Result Bool) → Type 0
Passed check = (check ≡ none) ⊎ (check ≡ some (ok true))

passes-Passed : (check : Option (Result Bool)) → passes check ≡ ok tt → Passed check
passes-Passed none h = inl refl
passes-Passed (some (ok true)) h = inr refl
passes-Passed (some (ok false)) h = absurd (cc)
passes-Passed (some (raise e)) h = absurd (cc)

module _ (py : Python) (card_url : Text) (policy : CardTrustPolicy) where
  -- an endpoint that the policy lets through
  pub record TrustedUrl (parsed : Url) : Type 0 where
    pub secure : (policy.require_https ≡ false) ⊎ (parsed.scheme ≡ text "https")
    pub local :
        (policy.require_same_origin ≡ false)
        ⊎ ((card : Url) × (py.urlparse (str card_url) ≡ ok card)
            × (same_origin parsed card ≡ ok true))

  abbrev pub TrustedEndpoint : Option Json → Type 0
  TrustedEndpoint none = Unit
  TrustedEndpoint (some endpoint) =
      (parsed : Url) × (py.urlparse endpoint ≡ ok parsed) × TrustedUrl parsed

  check_origin-Same :
      (parsed : Url)
      → check_origin py card_url parsed ≡ ok tt
      → (card : Url) × (py.urlparse (str card_url) ≡ ok card) × (same_origin parsed card ≡ ok true)
  unfolding check_origin
  check_origin-Same parsed h =
      let (card, found, rest) = returned (py.urlparse (str card_url)) _ tt h in
      let (same, compared, rest') = returned (same_origin parsed card) _ tt rest in
      (
        card,
        found,
        elim (Bool-cases same) [
          | inl agrees ↦ rw agrees at compared
          | inr differs ↦ absurd (let k = rw differs at rest' in cc)
        ],
      )

  abbrev insecure : Url → Bool
  insecure parsed = policy.require_https && not (text_eq parsed.scheme (text "https"))

  secure_or :
      (parsed : Url)
      → insecure parsed ≡ false
      → (policy.require_https ≡ false) ⊎ (parsed.scheme ≡ text "https")
  secure_or parsed h = elim (Bool-cases policy.require_https) [
    | inr off ↦ inl off
    | inl on ↦ elim (Bool-cases (text_eq parsed.scheme (text "https"))) [
      | inl same ↦ inr ((text_eq_iff parsed.scheme (text "https")).0 same)
      | inr other ↦ absurd (let k = rw (on, other) at h in cc)
    ]
  ]

  local_or :
      (parsed : Url)
      → (if policy.require_same_origin then check_origin py card_url parsed else ok tt) ≡ ok tt
      → (policy.require_same_origin ≡ false)
        ⊎ ((card : Url) × (py.urlparse (str card_url) ≡ ok card)
            × (same_origin parsed card ≡ ok true))
  local_or parsed h = elim (Bool-cases policy.require_same_origin) [
    | inr off ↦ inl off
    | inl on ↦ inr (check_origin-Same parsed (rw on at h))
  ]

  url-Trusted :
      (parsed : Url)
      → (if insecure parsed
          then invalid
          else (if policy.require_same_origin then check_origin py card_url parsed else ok tt))
        ≡ ok tt
      → TrustedUrl parsed
  url-Trusted parsed h = elim (Bool-cases (insecure parsed)) [
    | inl bad ↦ absurd (let k = rw bad at h in cc)
    | inr good ↦
        let rest = rw good at h in
        record { secure = secure_or parsed good; local = local_or parsed rest }
  ]

  check_endpoint_trust-Trusted :
      (endpoint : Option Json)
      → check_endpoint_trust py card_url policy endpoint ≡ ok tt
      → TrustedEndpoint endpoint
  unfolding check_endpoint_trust
  check_endpoint_trust-Trusted none h = tt
  check_endpoint_trust-Trusted (some endpoint) h =
      let (parsed, found, rest) = returned (py.urlparse endpoint) _ tt h in
      (parsed, found, url-Trusted parsed rest)

  -- the card as a whole
  pub record TrustedCard (card : Json) : Type 0 where
    pub url : Url
    pub parsed : py.urlparse (str card_url) ≡ ok url
    pub listed : Passed (allowed policy.allowed_domains (host_of url.hostname))
    pub signed : Passed (ask policy.signature_verifier card)
    pub owned : Passed (ask policy.domain_challenge (host_of url.hostname))

  check_card-Trusted : (card : Json) → check_card py card_url policy card ≡ ok tt → TrustedCard card
  unfolding check_card
  check_card-Trusted card h =
      let (url, found, rest) = returned (py.urlparse (str card_url)) _ tt h in
      let (a, listed, rest1) =
        returned (passes (allowed policy.allowed_domains (host_of url.hostname))) _ tt rest in
      let (b, signed, rest2) = returned (passes (ask policy.signature_verifier card)) _ tt rest1 in
      record {
        url = url;
        parsed = found;
        listed = passes-Passed (allowed policy.allowed_domains (host_of url.hostname)) listed;
        signed = passes-Passed (ask policy.signature_verifier card) signed;
        owned = passes-Passed (ask policy.domain_challenge (host_of url.hostname)) rest2;
      }

  -- what is said of the record at the end
  abbrev Obeys : ParsedCard → Type 0
  Obeys result =
      TrustedEndpoint result.receive_url
      × TrustedEndpoint (as_json result.a2a_endpoint)
      × (result.accepted_delivery_modes ≢ [])

  or_both-nonempty : (modes : List DeliveryMode) → or_both modes ≢ []
  or_both-nonempty [] h = cc
  or_both-nonempty (m ∷ ms) h = cc

  built-Obeys :
      (receive : Option Json) (endpoint : Option Text) (modes : List DeliveryMode)
      (result : ParsedCard)
      → TrustedEndpoint receive
      → TrustedEndpoint (as_json endpoint)
      → record {
        card_url = card_url;
        a2a_endpoint = endpoint;
        receive_url = receive;
        accepted_delivery_modes = or_both modes;
      }
        ≡ result
      → Obeys result
  built-Obeys receive endpoint modes result r a same =
      subst Obeys same (r, a, or_both-nonempty modes)

  -- A card that is accepted obeys the policy. When a fetched card is parsed: its host is in the
  -- allowlist, its signature verifies and the challenge of its domain succeeds, as far as the policy
  -- asks for them; the endpoints of both delivery modes, where the card has them, are HTTPS and of
  -- the card's own origin, as far as the policy asks for it; and at least one mode is accepted.
  pub parse_subscriber_card-Trusted :
      (card : Json) (result : ParsedCard)
      → parse_subscriber_card py card_url policy card ≡ ok result
      → TrustedCard card
        × TrustedEndpoint result.receive_url
        × TrustedEndpoint (as_json result.a2a_endpoint)
        × (result.accepted_delivery_modes ≢ [])
  unfolding parse_subscriber_card
  parse_subscriber_card-Trusted card result h =
      let (a, checked, rest) = returned (check_card py card_url policy card) _ result h in
      let (fs, dict, rest1) = returned (dict_of card) _ result rest in
      let (params, found, rest2) = returned (find_subscriber_extension fs) _ result rest1 in
      let (endpoint, has, rest3) = returned (a2a_endpoint_of py fs) _ result rest2 in
      let (declared, listed, rest4) =
        returned (declared_modes (get_field (text "acceptedDeliveryModes") params)) _ result
          rest3 in
      let (modes, read, rest5) = returned (modes_of declared) _ result rest4 in
      let (b, first, rest6) =
        returned
          (check_endpoint_trust py card_url policy
            (non_null (get_field (text "receiveUrl") params)))
          _ result rest5 in
      let (c, second, rest7) =
        returned (check_endpoint_trust py card_url policy (as_json endpoint)) _ result rest6 in
      let trusted =
        check_endpoint_trust-Trusted (non_null (get_field (text "receiveUrl") params)) first in
      let trusted' = check_endpoint_trust-Trusted (as_json endpoint) second in
      let obeys =
        built-Obeys (non_null (get_field (text "receiveUrl") params)) endpoint modes result trusted
          trusted' (ok-injective rest7) in
      (check_card-Trusted card checked, obeys.0, obeys.1, obeys.2)
