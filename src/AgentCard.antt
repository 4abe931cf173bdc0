-- ===== src/AgentCard.antt =====
-- agentcard.py: a subscriber's card, the checks it must pass, and its signature. A card is any JSON.
-- Python's `urlparse` and its `str` of what is no text are parameters.
pub mod Trust
pub mod Signed
use a2a_events_python.Common.{
  ℕ, Bool, true, false, not, ◌&&◌, Option, none, some, List, [], ◌∷◌, if◌then◌else◌, ◌==◌, Text,
  text, text_eq, any_by,
}
use a2a_events_python.Json.{
  Json, null, str, arr, obj, Fields, end, field, get_field, scalar_eq, truthy, to_list,
}
use a2a_events_python.Errors.{
  Result, ok, raise, protocol, subscriber_card_invalid, subscriber_card_unreachable, value_error,
  type_error, attribute_error, ◌>>=◌, ◌>>◌,
}
use a2a_events_python.Models.{DeliveryMode, webhook, a2a_message}
use a2a_events_python.Receiver.Framing.{extension_uri}

-- What `urlparse` gives. Reading a port that is no number raises.
pub record Url : Type 0 where
  pub scheme : Text
  pub hostname : Option Text
  pub port : Result (Option ℕ)

pub record Python : Type 0 where
  pub urlparse : Json → Result Url
  pub str_of : Json → Text

pub record CardTrustPolicy : Type 0 where
  pub require_https : Bool
  pub require_same_origin : Bool
  pub allowed_domains : Option (List Text)
  pub signature_verifier : Option (Json → Result Bool)
  pub domain_challenge : Option (Text → Result Bool)

-- `SubscriberCard`, before anything asks its `receiveUrl` to be a text
pub record ParsedCard : Type 0 where
  pub card_url : Text
  pub a2a_endpoint : Option Text
  pub receive_url : Option Json
  pub accepted_delivery_modes : List DeliveryMode

abbrev letters : Text → List Json
letters [] = []
letters (c ∷ cs) = str (c ∷ []) ∷ letters cs

abbrev names : Fields → List Json
names end = []
names (field k v fs) = str k ∷ names fs

-- for x in value
unfoldable pub iterate : Json → Result (List Json)
iterate (arr xs) = ok (to_list xs)
iterate (obj fs) = ok (names fs)
iterate (str s) = ok (letters s)
iterate _ = raise type_error

-- for x in d.get(key) or []
unfoldable pub each_or_empty : Option Json → Result (List Json)
unfolding iterate
each_or_empty none = ok []
each_or_empty (some v) = if truthy v then iterate v else ok []

-- (d.get(key) or {}).get
unfoldable pub dict_or_empty : Option Json → Result Fields
dict_or_empty none = ok end
dict_or_empty (some (obj fs)) = ok fs
dict_or_empty (some v) = if truthy v then raise attribute_error else ok end

abbrev pub dict_of : Json → Result Fields
dict_of (obj fs) = ok fs
dict_of _ = raise attribute_error

-- d.get(key, default) == value, for a text
abbrev equals : Bool → Text → Option Json → Bool
equals default value none = default
equals default value (some v) = scalar_eq (str value) v

-- a value that counts as true
abbrev pub filled : Option Json → Bool
filled none = false
filled (some v) = truthy v

abbrev pub invalid {ℓ} : {A : Type ℓ} → Result A
invalid = raise (protocol subscriber_card_invalid)

-- `_find_subscriber_extension`
unfoldable pub find_in : List Json → Result Fields
find_in [] = invalid
find_in (ext ∷ exts) =
    let rest = find_in exts in
    do
      fs ← dict_of ext
      if equals false extension_uri (get_field (text "uri") fs)
          then (do
            params ← dict_or_empty (get_field (text "params") fs)
            if equals false (text "subscriber") (get_field (text "role") params)
                then ok params
                else rest)
          else rest

unfoldable pub find_subscriber_extension : Fields → Result Fields
unfolding find_in
find_subscriber_extension card = do
  capabilities ← dict_or_empty (get_field (text "capabilities") card)
  exts ← each_or_empty (get_field (text "extensions") capabilities)
  find_in exts

-- DeliveryMode(m)
abbrev mode_of : Json → Result DeliveryMode
mode_of m =
    if scalar_eq (str (text "webhook")) m
    then ok webhook
    else if scalar_eq (str (text "a2a-message")) m
    then ok a2a_message
    else raise value_error

unfoldable pub modes_of : List Json → Result (List DeliveryMode)
modes_of [] = ok []
modes_of (m ∷ ms) = do mode ← mode_of m; modes ← modes_of ms; ok (mode ∷ modes)

-- params.get("acceptedDeliveryModes", [])
abbrev pub declared_modes : Option Json → Result (List Json)
declared_modes none = ok []
declared_modes (some v) = iterate v

abbrev pub or_both : List DeliveryMode → List DeliveryMode
or_both [] = a2a_message ∷ webhook ∷ []
or_both modes = modes

-- a JSON null is Python's None
abbrev pub non_null : Option Json → Option Json
non_null (some null) = none
non_null v = v

abbrev pub as_json : Option Text → Option Json
as_json none = none
as_json (some s) = some (str s)

-- (parsed.scheme, parsed.hostname, parsed.port) == (card.scheme, card.hostname, card.port)
abbrev option_eq {ℓ} : {A : Type ℓ} → (A → A → Bool) → Option A → Option A → Bool
option_eq eq none none = true
option_eq eq (some a) (some b) = eq a b
option_eq eq _ _ = false

unfoldable pub same_origin : Url → Url → Result Bool
same_origin parsed card = do
  port ← parsed.port
  port' ← card.port
  ok (
      text_eq parsed.scheme card.scheme
      && option_eq text_eq parsed.hostname card.hostname
      && option_eq (λ a b. a == b) port port')

-- a check of the policy that is set
abbrev pub passes : Option (Result Bool) → Result (Unit {0})
passes none = ok tt
passes (some answer) = do good ← answer; if good then ok tt else invalid

abbrev pub host_of : Option Text → Text
host_of none = []
host_of (some host) = host

abbrev pub allowed : Option (List Text) → Text → Option (Result Bool)
allowed none host = none
allowed (some domains) host = some (ok (any_by (λ d. text_eq d host) domains))

abbrev pub ask : {A : Type 0} → Option (A → Result Bool) → A → Option (Result Bool)
ask none a = none
ask (some verify) a = some (verify a)

module _ (py : Python) where
  abbrev pub text_of : Json → Text
  text_of (str s) = s
  text_of v = py.str_of v

  -- the loop of `_a2a_endpoint_of`
  unfoldable pub endpoint_in : List Json → Result (Option Text)
  endpoint_in [] = ok none
  endpoint_in (iface ∷ ifaces) =
      let rest = endpoint_in ifaces in
      do
        fs ← dict_of iface
        elim (get_field (text "url") fs) [
          | none ↦ rest
          | some url ↦
              if truthy url && equals true (text "JSONRPC") (get_field (text "protocolBinding") fs)
              then ok (some (text_of url))
              else rest
        ]

  abbrev fallback : Option Json → Option Text
  fallback none = none
  fallback (some url) = if truthy url then some (text_of url) else none

  abbrev endpoint_or : Fields → Option Text → Option Text
  endpoint_or card none = fallback (get_field (text "url") card)
  endpoint_or card (some url) = some url

  -- `_a2a_endpoint_of`
  unfoldable pub a2a_endpoint_of : Fields → Result (Option Text)
  unfolding endpoint_in
  a2a_endpoint_of card = do
    ifaces ← each_or_empty (get_field (text "supportedInterfaces") card)
    found ← endpoint_in ifaces
    ok (endpoint_or card found)

  -- the check of one endpoint against the policy
  unfoldable pub check_origin : Text → Url → Result (Unit {0})
  unfolding same_origin
  check_origin card_url parsed = do
    card ← py.urlparse (str card_url)
    same ← same_origin parsed card
    if same then ok tt else invalid

  -- `_check_endpoint_trust`
  unfoldable pub check_endpoint_trust : Text → CardTrustPolicy → Option Json → Result (Unit {0})
  unfolding check_origin
  check_endpoint_trust card_url policy none = ok tt
  check_endpoint_trust card_url policy (some endpoint) = do
    parsed ← py.urlparse endpoint
    if policy.require_https && not (text_eq parsed.scheme (text "https"))
        then invalid
        else if policy.require_same_origin
        then check_origin card_url parsed
        else ok tt

  -- the checks of `parse_subscriber_card` on the card as a whole
  unfoldable pub check_card : Text → CardTrustPolicy → Json → Result (Unit {0})
  check_card card_url policy card = do
    url ← py.urlparse (str card_url)
    passes (allowed policy.allowed_domains (host_of url.hostname))
    passes (ask policy.signature_verifier card)
    passes (ask policy.domain_challenge (host_of url.hostname))

  unfoldable pub parse_subscriber_card : Text → CardTrustPolicy → Json → Result ParsedCard
  unfolding check_card
  parse_subscriber_card card_url policy card = do
    check_card card_url policy card
    fs ← dict_of card
    params ← find_subscriber_extension fs
    a2a_endpoint ← a2a_endpoint_of fs
    declared ← declared_modes (get_field (text "acceptedDeliveryModes") params)
    modes ← modes_of declared
    check_endpoint_trust card_url policy (non_null (get_field (text "receiveUrl") params))
    check_endpoint_trust card_url policy (as_json a2a_endpoint)
    ok (record {
      card_url = card_url;
      a2a_endpoint = a2a_endpoint;
      receive_url = non_null (get_field (text "receiveUrl") params);
      accepted_delivery_modes = or_both modes;
    })

  -- `AgentCardResolver.__call__`; the answer of the HTTP client is `none` where it raises
  unfoldable pub resolve_card : CardTrustPolicy → (Text → Option Json) → Text → Result ParsedCard
  resolve_card policy fetch card_url = elim (fetch card_url) [
    | none ↦ raise (protocol subscriber_card_unreachable)
    | some card ↦ parse_subscriber_card card_url policy card
  ]
