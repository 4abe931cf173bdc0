-- ===== src/Examples/Cards.antt =====
-- A subscriber's card.
use a2a_events_python.Common.{
  Bool, true, ◌≡◌, ◌≢◌, refl, true, none, some, [], ◌∷◌, Text, text, text_eq,
}
use a2a_events_python.Json.{
  Json, str, arr, obj, nil, cons, end, field, get_field, scalar_eq, truthy,
}
use a2a_events_python.Errors.{ok}
use a2a_events_python.Models.{webhook}
use a2a_events_python.Receiver.Framing.{extension_uri}
use a2a_events_python.AgentCard.{
  Python, CardTrustPolicy, ParsedCard, parse_subscriber_card, find_subscriber_extension, find_in,
  a2a_endpoint_of, endpoint_in, check_card, check_endpoint_trust, check_origin, same_origin,
  each_or_empty, dict_or_empty, iterate, modes_of,
}
use a2a_events_python.AgentCard.Signed.{verify_card, sign_card}
use a2a_events_python.AgentCard.Signed.Verifies.{verify_card-sign_card}
use a2a_events_python.Examples.Keys.{toy, toy-Signs}
use a2a_events_python.AgentCard.Trust.{TrustedCard, TrustedEndpoint, parse_subscriber_card-Trusted}

-- every URL is at https://buyer
abbrev python : Python
python = record {
  urlparse =
      λ u. ok (record { scheme = text "https"; hostname = some (text "buyer"); port = ok none });
  str_of = λ v. [];
}

abbrev strict : CardTrustPolicy
strict = record {
  require_https = true;
  require_same_origin = true;
  allowed_domains = some (text "buyer" ∷ []);
  signature_verifier = none;
  domain_challenge = some (λ host. ok true);
}

abbrev params : Json
params = obj (
    field (text "role") (str (text "subscriber")) (
      field (text "receiveUrl") (str (text "https://buyer/hook"))
        (field (text "acceptedDeliveryModes") (arr (cons (str (text "webhook")) nil)) end)))

abbrev extension : Json
extension = obj (field (text "uri") (str extension_uri) (field (text "params") params end))

abbrev card : Json
card = obj (
    field (text "capabilities") (obj (field (text "extensions") (arr (cons extension nil)) end))
      end)

abbrev card_url : Text
card_url = text "https://buyer/card"

abbrev parsed : ParsedCard
parsed = record {
  card_url = card_url;
  a2a_endpoint = none;
  receive_url = some (str (text "https://buyer/hook"));
  accepted_delivery_modes = webhook ∷ [];
}

card_parsed : parse_subscriber_card python card_url strict card ≡ ok parsed
unfolding parse_subscriber_card check_card find_subscriber_extension find_in a2a_endpoint_of
    endpoint_in check_endpoint_trust check_origin same_origin each_or_empty dict_or_empty iterate
    modes_of get_field text_eq scalar_eq truthy
card_parsed = refl

parse_subscriber_card-Trusted_example :
    TrustedCard python card_url strict card
    × TrustedEndpoint python card_url strict (some (str (text "https://buyer/hook")))
    × TrustedEndpoint python card_url strict none
    × (webhook ∷ [] ≢ [])
parse_subscriber_card-Trusted_example =
    parse_subscriber_card-Trusted python card_url strict card parsed card_parsed

-- a signature of the toy is not empty
toy_long : (key : Bool) (message : Text) → toy.sign key message ≢ []
toy_long key message h = cc

verify_card-sign_card_example :
    verify_card toy python true
      (obj (sign_card toy true (text "card-1") (field (text "name") (str (text "buyer")) end)))
    ≡ ok true
verify_card-sign_card_example =
    verify_card-sign_card toy toy-Signs toy_long python true (text "card-1")
      (field (text "name") (str (text "buyer")) end)
