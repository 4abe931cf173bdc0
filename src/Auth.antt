-- ===== src/Auth.antt =====
-- auth.py: the caller, the bearer header, the grant table and the delivery tokens. The keyed hash
-- of a token is a parameter. Sets are lists.
pub mod Grants
use a2a_events_python.Common.{
  ℕ, Bool, true, false, not, ◌&&◌, ◌||◌, Option, none, some, List, [], ◌∷◌, ◌++◌, ◌==◌,
  if◌then◌else◌, Text, text, text_eq, is_empty, any_by, all_by, filter_by, Dict, get, get_or, put,
  remove, has,
}
use a2a_events_python.Errors.{Result, ok, raise, protocol, topic_not_authorized}
use a2a_events_python.Models.{Subscription}

-- `scopes` and `claims` are carried and never read.
pub record AuthIdentity : Type 0 where
  pub subject : Text

-- value.partition(" "): the parts before and after the first space
unfoldable pub partition_space : Text → Text × Text
partition_space [] = ([], [])
partition_space (c ∷ cs) =
    let (scheme, rest) = partition_space cs in if c == 32 then ([], cs) else (c ∷ scheme, rest)

-- Headers as the pairs of the mapping, in order; `lower` and `strip` are Python's.
unfoldable pub bearer_token : (Text → Text) → (Text → Text) → List (Text × Text) → Option Text
unfolding partition_space
bearer_token lower strip [] = none
bearer_token lower strip ((key, value) ∷ headers) =
    let rest = bearer_token lower strip headers in
    let (scheme, token) = partition_space value in
    if text_eq (lower key) (text "authorization")
      && (text_eq (lower scheme) (text "bearer") && not (is_empty token))
    then some (strip token)
    else rest

pub record AllowlistAuthorizer : Type 0 where
  pub grants : Dict (List Text)
  pub public_topics : List Text

abbrev pub member : Text → List Text → Bool
member t ts = any_by (λ u. text_eq u t) ts

unfoldable pub grant : Text → List Text → AllowlistAuthorizer → AllowlistAuthorizer
grant subject topics a = record a {
  grants = put subject (get_or [] subject a.grants ++ topics) a.grants;
}

unfoldable pub revoke : Text → Option (List Text) → AllowlistAuthorizer → AllowlistAuthorizer
revoke subject none a = record a { grants = remove subject a.grants }
revoke subject (some topics) a = elim (get subject a.grants) [
  | none ↦ a
  | some held ↦ record a {
    grants = put subject (filter_by (λ t. not (member t topics)) held) a.grants;
  }
]

abbrev holds : List Text → Text → Bool
holds allowed topic = member (text "*") allowed || member topic allowed

abbrev granted : AllowlistAuthorizer → Option Text → Text → Bool
granted a none topic = false
granted a (some subject) topic = holds (get_or [] subject a.grants) topic

unfoldable pub allowed : AllowlistAuthorizer → Option Text → Text → Bool
allowed a subject topic = if member topic a.public_topics then true else granted a subject topic

abbrev pub subject_of : Option AuthIdentity → Option Text
subject_of none = none
subject_of (some identity) = some identity.subject

abbrev deny : List Text → Result (Unit {0})
deny [] = ok tt
deny (t ∷ denied) = raise (protocol topic_not_authorized)

unfoldable pub authorize_subscribe :
    AllowlistAuthorizer → Option AuthIdentity → List Text → Result (Unit {0})
unfolding allowed
authorize_subscribe a identity topics =
    deny (filter_by (λ t. not (allowed a (subject_of identity) t)) topics)

unfoldable pub authorize_delivery : AllowlistAuthorizer → Subscription → Bool
unfolding allowed
authorize_delivery a sub = all_by (λ t. allowed a (some sub.subscriber_card_url) t) sub.topics

-- `mac` is the base64 of the keyed hash of a subscription id.
unfoldable pub issue : (Text → Text) → Text → Text
issue mac subscription_id = text "dtok_" ++ mac subscription_id

unfoldable pub verify : (Text → Text) → Text → Option Text → Bool
unfolding issue
verify mac subscription_id none = false
verify mac subscription_id (some []) = false
verify mac subscription_id (some (c ∷ cs)) = text_eq (c ∷ cs) (issue mac subscription_id)
