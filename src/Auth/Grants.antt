-- ===== src/Auth/Grants.antt =====
-- The grant table and the delivery tokens.
use a2a_events_python.Common.{
  ◌≡◌, ◌↔◌, refl, Bool, true, not, Option, none, some, List, [], ◌∷◌, ◌++◌, arith, Text,
  text_eq_refl, text_eq_iff, all_by, filter_by, Dict, get_or, put, remove, get-put_self, get-remove,
  Bool-cases, inl, inr,
}
use a2a_events_python.Errors.{ok}
use a2a_events_python.Auth.{
  AuthIdentity, AllowlistAuthorizer, member, grant, revoke, allowed, subject_of, deny,
  authorize_subscribe, issue, verify,
}

denied_iff :
    (p : Text → Bool) (topics : List Text)
    → (deny (filter_by (λ t. not (p t)) topics) ≡ ok tt) ↔ (all_by p topics ≡ true)
denied_iff p [] = (λ h. refl, λ h. refl)
denied_iff p (t ∷ topics) = elim (Bool-cases (p t)) [
  | inl hit ↦ rw hit (denied_iff p topics)
  | inr miss ↦ rw miss (λ h. absurd (cc), λ h. absurd (cc))
]

-- A subscription to some topics is authorized exactly if each of them is allowed to the caller.
pub authorize_subscribe_iff :
    (a : AllowlistAuthorizer) (identity : Option AuthIdentity) (topics : List Text)
    → (authorize_subscribe a identity topics ≡ ok tt)
      ↔ (all_by (allowed a (subject_of identity)) topics ≡ true)
unfolding authorize_subscribe
authorize_subscribe_iff a identity topics = denied_iff (allowed a (subject_of identity)) topics

get_or-put {ℓ} : {V : Type ℓ} (k : Text) (u v : V) (d : Dict V) → get_or u k (put k v d) ≡ v
get_or-put k u v d = rw (get-put_self k v d, get_or) refl

get_or-remove {ℓ} : {V : Type ℓ} (k : Text) (u : V) (d : Dict V) → get_or u k (remove k d) ≡ u
get_or-remove k u d = rw (get-remove k k d, get_or) (rw (text_eq_refl k) refl)

-- After everything is revoked from a subject, it is allowed the public topics and no other.
pub allowed-revoke :
    (a : AllowlistAuthorizer) (subject topic : Text)
    → allowed (revoke subject none a) (some subject) topic ≡ member topic a.public_topics
unfolding allowed revoke
allowed-revoke a subject topic = rw (get_or-remove subject [] a.grants) (ground arith)

member-append : (t : Text) (xs ys : List Text) → member t ys ≡ true → member t (xs ++ ys) ≡ true
member-append t [] ys h = h
member-append t (x ∷ xs) ys h = ground (arith, member-append t xs ys h)

-- A topic just granted to a subject is allowed to it.
pub allowed-grant :
    (a : AllowlistAuthorizer) (subject topic : Text) (topics : List Text)
    → member topic topics ≡ true
    → allowed (grant subject topics a) (some subject) topic ≡ true
unfolding allowed grant
allowed-grant a subject topic topics h =
    let hit = member-append topic (get_or [] subject a.grants) topics h in
    rw (get_or-put subject [] (get_or [] subject a.grants ++ topics) a.grants) (ground (arith, hit))

-- A presented token is accepted exactly if it is the one issued for the subscription.
pub verify_iff :
    (mac : Text → Text) (subscription_id token : Text)
    → (verify mac subscription_id (some token) ≡ true) ↔ (token ≡ issue mac subscription_id)
unfolding verify issue
verify_iff mac sid [] = (λ h. absurd (cc), λ h. absurd (cc))
verify_iff mac sid (c ∷ cs) = text_eq_iff (c ∷ cs) _
