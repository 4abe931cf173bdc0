-- ===== src/Ssrf/Screening.antt =====
-- What the endpoint check lets through.
use a2a_events_python.Common.{
  ◌≡◌, refl, ap, ◌∙◌, ◌⊎◌, inl, inr, arith, true, false, Option, none, some, List, [], ◌∷◌, ◌++◌,
  Text, text, text_eq, text_eq_iff, any_by, All, Option-cases,
}
use a2a_events_python.Errors.{Result, ok, raise, ◌>>◌}
use a2a_events_python.Ssrf.{
  Address, Urls, SsrfPolicy, screen_ip, screen_text, screen_all, screen_resolved, screen_host,
  check_endpoint, loopback_host, ends_with,
}

-- An address that is in none of the classes that the policy blocks.
pub record Unblocked (policy : SsrfPolicy) (ip : Address) : Type 0 where
  pub loopback : policy.block_loopback ≡ true → ip.is_loopback ≡ false
  pub link_local : policy.block_link_local ≡ true → ip.is_link_local ≡ false
  pub private : policy.block_private ≡ true → ip.is_private ≡ false
  pub reserved : policy.block_reserved ≡ true → ip.is_reserved ≡ false
  pub unspecified : policy.block_reserved ≡ true → ip.is_unspecified ≡ false
  pub multicast : policy.block_reserved ≡ true → ip.is_multicast ≡ false

screen_ip-Unblocked :
    (ip : Address) (policy : SsrfPolicy) → screen_ip ip policy ≡ ok tt → Unblocked policy ip
unfolding screen_ip
screen_ip-Unblocked ip policy h = record {
  loopback = λ on. ground (arith, on, h);
  link_local = λ on. ground (arith, on, h);
  private = λ on. ground (arith, on, h);
  reserved = λ on. ground (arith, on, h);
  unspecified = λ on. ground (arith, on, h);
  multicast = λ on. ground (arith, on, h);
}

ends_with-append : (suffix pre : Text) → ends_with suffix (pre ++ suffix) ≡ true
unfolding ends_with text_eq
ends_with-append [] [] = refl
ends_with-append (c ∷ cs) [] = rw ((text_eq_iff (c ∷ cs) (c ∷ cs)).1 refl) refl
ends_with-append suffix (c ∷ pre) = rw (ends_with-append suffix pre) (ground arith)

module _ (urls : Urls) (policy : SsrfPolicy) where
  -- the text is an address literal that the policy lets through
  abbrev pub Passes : Text → Type 0
  Passes a = (ip : Address) × (urls.ip_address a ≡ some ip) × Unblocked policy ip

  -- an unblocked address literal, or a name that is not resolved, or one whose addresses pass
  abbrev pub HostPasses : Text → Type 0
  HostPasses host =
      Passes host
      ⊎ (policy.resolve ≡ none
          ⊎ ((resolve : Text → List Text) × (policy.resolve ≡ some resolve)
              × (¬ resolve host ≡ [])
              × All Passes (resolve host)))

  -- `localhost` and the names under it
  abbrev pub NotLoopback : Text → Type 0
  NotLoopback host =
      (¬ host ≡ text "localhost") × ((pre : Text) → ¬ host ≡ pre ++ text ".localhost")

  screened :
      (a : Text) (o : Option Address)
      → urls.ip_address a ≡ o
      → screen_text urls policy o ≡ ok tt
      → Passes a
  screened a none at h = absurd (cc)
  screened a (some ip) at h = (ip, at, screen_ip-Unblocked ip policy h)

  screen_all-Passes :
      (addresses : List Text) → screen_all urls policy addresses ≡ ok tt → All Passes addresses
  unfolding screen_all
  screen_all-Passes [] h = tt
  screen_all-Passes (a ∷ addresses) h =
      go (screen_text urls policy (urls.ip_address a)) refl h (screen_all-Passes addresses)
    where
      go :
          (x : Result (Unit {0}))
          → screen_text urls policy (urls.ip_address a) ≡ x
          → (do x; screen_all urls policy addresses) ≡ ok tt
          → (screen_all urls policy addresses ≡ ok tt → All Passes addresses)
          → All Passes (a ∷ addresses)
      go (ok u) e k rest = (screened a (urls.ip_address a) refl e, rest k)
      go (raise r) e k rest = absurd (cc)

  All-Passes :
      (addresses : List Text)
      → screen_resolved urls policy addresses ≡ ok tt
      → (¬ addresses ≡ []) × All Passes addresses
  All-Passes [] h = absurd (cc)
  All-Passes (a ∷ addresses) h = ((λ e. cc), screen_all-Passes (a ∷ addresses) h)

  screen_host-HostPasses : (host : Text) → screen_host urls policy host ≡ ok tt → HostPasses host
  unfolding screen_host
  screen_host-HostPasses host h = elim (Option-cases (urls.ip_address host)) [
    | inr (ip, literal) ↦
        let h' : screen_ip ip policy ≡ ok tt = rw (screen_host, literal) at h in
        inl (ip, literal, screen_ip-Unblocked ip policy h')
    | inl name ↦ elim (Option-cases policy.resolve) [
      | inl unresolved ↦ inr (inl unresolved)
      | inr (resolve, can) ↦
          let resolves : screen_host urls policy host ≡ screen_resolved urls policy (resolve host) =
            rw (name, screen_host) (rw (can, screen_host) refl) in
          let (some_address, pass) = All-Passes (resolve host) (rw (← resolves) h) in
          inr (inr (resolve, can, some_address, pass))
    ]
  ]

  loopback_host-NotLoopback : (host : Text) → loopback_host host ≡ false → NotLoopback host
  loopback_host-NotLoopback host h = (
    (λ e. absurd (ground (arith, h, text_eq_iff host (text "localhost")))),
    (λ pre e. absurd (
        let hit : ends_with (text ".localhost") host ≡ true =
          ap (ends_with (text ".localhost")) e ∙ ends_with-append (text ".localhost") pre in
        ground (arith, h, hit))),
  )

  -- An endpoint is accepted only if its scheme is http, or https, the second if the policy requires
  -- it, its host is not empty, and the host is on the allow list, or else: where the policy blocks
  -- loopback, the host is not `localhost` and does not end in `.localhost`; and the host is an
  -- address literal in no class that the policy blocks, or the policy resolves no names, or the host
  -- resolves to at least one address and each is a literal in no class that the policy blocks.
  pub check_endpoint-Screened :
      (url : Text)
      → check_endpoint urls policy url ≡ ok tt
      → ((urls.scheme url ≡ text "http") ⊎ (urls.scheme url ≡ text "https"))
        × ((policy.require_https ≡ false) ⊎ (urls.scheme url ≡ text "https"))
        × (¬ urls.hostname url ≡ [])
        × ((any_by (λ h. text_eq h (urls.hostname url)) policy.allow_hosts ≡ true)
            ⊎ (((policy.block_loopback ≡ false) ⊎ NotLoopback (urls.hostname url))
                × HostPasses (urls.hostname url)))
  unfolding check_endpoint
  check_endpoint-Screened url h =
      let scheme = urls.scheme url in
      let host = urls.hostname url in
      let (a, b, c, d) = guards url h in
      (
        a,
        b,
        c,
        elim d [
          | inl allowed ↦ inl allowed
          | inr (inl off, host_ok) ↦ inr (inl off, screen_host-HostPasses host host_ok)
          | inr (inr outside, host_ok) ↦
              inr
                (inr (loopback_host-NotLoopback host outside), screen_host-HostPasses host host_ok)
        ],
      )
    where
      guards :
          (url : Text)
          → check_endpoint urls policy url ≡ ok tt
          → ((urls.scheme url ≡ text "http") ⊎ (urls.scheme url ≡ text "https"))
            × ((policy.require_https ≡ false) ⊎ (urls.scheme url ≡ text "https"))
            × (¬ urls.hostname url ≡ [])
            × ((any_by (λ h. text_eq h (urls.hostname url)) policy.allow_hosts ≡ true)
                ⊎ (((policy.block_loopback ≡ false) ⊎ (loopback_host (urls.hostname url) ≡ false))
                    × (screen_host urls policy (urls.hostname url) ≡ ok tt)))
      guards url h =
          let scheme = urls.scheme url in
          let host = urls.hostname url in
          ground (
            arith,
            text_eq_iff scheme (text "http"),
            text_eq_iff scheme (text "https"),
            text_eq_iff host [],
          )
