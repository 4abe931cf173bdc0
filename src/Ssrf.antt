-- ===== src/Ssrf.antt =====
-- runtime/ssrf.py. `urlsplit` and `ipaddress` are Python's library: a record of functions gives the
-- scheme and the host of a URL in lower case, and the classes of an address literal.
pub mod Screening
use a2a_events_python.Common.{
  ℕ, Bool, true, false, not, ◌&&◌, ◌||◌, Option, none, some, List, [], ◌∷◌, ◌++◌, if◌then◌else◌,
  Text, text, text_eq, any_by,
}
use a2a_events_python.Errors.{
  Result, ok, raise, protocol, value_error, delivery_endpoint_blocked, ◌>>=◌, ◌>>◌,
}

-- What `ipaddress` says of an address.
pub record Address : Type 0 where
  pub is_loopback : Bool
  pub is_link_local : Bool
  pub is_private : Bool
  pub is_reserved : Bool
  pub is_unspecified : Bool
  pub is_multicast : Bool

pub record Urls : Type 0 where
  -- urlsplit(url).scheme.lower()
  pub scheme : Text → Text
  -- (urlsplit(url).hostname or "").lower()
  pub hostname : Text → Text
  -- ipaddress.ip_address(host); `none` is its ValueError
  pub ip_address : Text → Option Address

pub record SsrfPolicy : Type 0 where
  pub block_loopback : Bool
  pub block_private : Bool
  pub block_link_local : Bool
  pub block_reserved : Bool
  pub require_https : Bool
  pub allow_hosts : List Text
  pub resolve : Option (Text → List Text)

abbrev pub reject : Result (Unit {0})
reject = raise (protocol delivery_endpoint_blocked)

unfoldable pub screen_ip : Address → SsrfPolicy → Result (Unit {0})
screen_ip ip policy =
    if policy.block_loopback && ip.is_loopback
    then reject
    else if policy.block_link_local && ip.is_link_local
    then reject
    else if policy.block_private && ip.is_private
    then reject
    else if policy.block_reserved && (ip.is_reserved || ip.is_unspecified || ip.is_multicast)
    then reject
    else ok tt

unfoldable pub ends_with : Text → Text → Bool
ends_with suffix [] = text_eq [] suffix
ends_with suffix (c ∷ cs) = text_eq (c ∷ cs) suffix || ends_with suffix cs

abbrev pub loopback_host : Text → Bool
loopback_host host = text_eq host (text "localhost") || ends_with (text ".localhost") host

module _ (urls : Urls) (policy : SsrfPolicy) where
  -- `ip_address` of a resolved text that is no address raises `ValueError`
  abbrev pub screen_text : Option Address → Result (Unit {0})
  screen_text none = raise value_error
  screen_text (some ip) = screen_ip ip policy

  unfoldable pub screen_all : List Text → Result (Unit {0})
  unfolding screen_ip
  screen_all [] = ok tt
  screen_all (a ∷ addresses) =
      let rest = screen_all addresses in do screen_text (urls.ip_address a); rest

  abbrev screen_resolved : List Text → Result (Unit {0})
  screen_resolved [] = reject
  screen_resolved (a ∷ addresses) = screen_all (a ∷ addresses)

  -- after the host tests: a literal is screened, a name is resolved if the policy can
  unfoldable pub screen_host : Text → Result (Unit {0})
  unfolding screen_all screen_ip
  screen_host host = elim (urls.ip_address host) [
    | some literal ↦ screen_ip literal policy
    | none ↦ elim policy.resolve [ none ↦ ok tt | some resolve ↦ screen_resolved (resolve host) ]
  ]

  unfoldable pub check_endpoint : Text → Result (Unit {0})
  unfolding screen_host ends_with
  check_endpoint url =
      let scheme = urls.scheme url in
      let host = urls.hostname url in
      if not (text_eq scheme (text "http") || text_eq scheme (text "https"))
      then reject
      else if policy.require_https && not (text_eq scheme (text "https"))
      then reject
      else if text_eq host []
      then reject
      else if any_by (λ h. text_eq h host) policy.allow_hosts
      then ok tt
      else if policy.block_loopback && loopback_host host
      then reject
      else screen_host host
