-- ===== src/Publisher/Lifecycle/Status.antt =====
-- The status of a subscription over its life: expiry, renewal and deletion.
use a2a_events_python.Common.{
  ℕ, ◌+◌, ◌*◌, ◌≤◌, ◌<◌, ◌≡◌, refl, arith, true, some, Text, get, get-put_self, Bool-cases,
  Option-cases, inl, inr,
}
use a2a_events_python.Errors.{Result, ok, raise, protocol, subscription_not_found}
use a2a_events_python.Exec.{pure, lift, bind_ok}
use a2a_events_python.Models.{
  Subscription, SubscriptionStatus, active, expired, deleted, is_active, is_deleted,
}
use a2a_events_python.SubscriptionStore.{get_sub, update}
use a2a_events_python.Publisher.{World, Env, Config, now, second, expire_if_due, refresh}
use a2a_events_python.Publisher.Guards.{check_lease, check_lease_iff}
use a2a_events_python.Publisher.Lifecycle.{get_subscription, get_active_subscription, renew, delete}

module _ (env : Env) (cfg : Config) where
  status_active : (s : SubscriptionStatus) → is_active s ≡ true → s ≡ active
  status_active active h = refl
  status_active expired h = absurd (cc)
  status_active deleted h = absurd (cc)

  refresh_live :
      (s sub : Subscription) (w w' : World)
      → refresh env s w ≡ (ok sub, w')
      → is_active sub.status ≡ true
      → env.clock w.ticks < sub.lease_until
  unfolding refresh expire_if_due now
  refresh_live s sub w w' h live = ground arith

  get_subscription_live :
      (sid : Text) (sub : Subscription) (w w' : World)
      → get_subscription env cfg sid w ≡ (ok sub, w')
      → is_active sub.status ≡ true
      → env.clock w.ticks < sub.lease_until
  unfolding get_subscription
  get_subscription_live sid sub w w' h live = elim (Option-cases (get_sub sid w.subs)) [
    | inl miss ↦ absurd (let h' = rw (miss, get_subscription) at h in cc)
    | inr (s, hit) ↦
        let h' = rw (hit, get_subscription) at h in
        elim (Bool-cases (is_deleted s.status)) [
          | inl gone ↦ absurd (let h'' = rw gone at h' in cc)
          | inr there ↦ refresh_live s sub w w' (rw there at h') live
        ]
  ]

  -- A subscription that is returned as active has a lease that ends after the clock's reading in
  -- that call.
  pub get_active_subscription-leased :
      (sid : Text) (sub : Subscription) (w w' : World)
      → get_active_subscription env cfg sid w ≡ (ok sub, w')
      → (sub.status ≡ active) × (env.clock w.ticks < sub.lease_until)
  unfolding get_active_subscription get_subscription refresh expire_if_due now
  get_active_subscription-leased sid sub w w' h =
      let (s, v, got, rest) = bind_ok (get_subscription env cfg sid) _ w sub w' h in
      elim (Bool-cases (is_active s.status)) [
        | inl live ↦
            let same : s ≡ sub = (let k = rw live at rest in cc) in
            let live' : is_active sub.status ≡ true = rw same at live in
            (
              status_active sub.status live',
              get_subscription_live sid sub w v (rw same at got) live',
            )
        | inr other ↦ absurd (let k = rw other at rest in cc)
      ]

  -- A subscription that is deleted is not found afterwards.
  pub get_subscription-delete :
      (sid : Text) (sub : Subscription) (w : World)
      → get_sub sid w.subs ≡ some sub
      → sub.subscription_id ≡ sid
      → (get_subscription env cfg sid (delete env cfg sid w).1).0
        ≡ raise (protocol subscription_not_found)
  unfolding get_subscription delete get_sub update
  get_subscription-delete sid sub w found same =
      rw (found, delete) (rw (same, get-put_self, get_subscription) refl)

  lifted :
      (x : Result (Unit {0})) (w : World) (u : Unit {0}) (w' : World)
      → lift x w ≡ (ok u, w')
      → x ≡ ok tt
  lifted (ok u) w v w' h = refl
  lifted (raise e) w v w' h = absurd (cc)

  renewed_held :
      (s : Subscription) (until : ℕ) (sub : Subscription) (v w' : World)
      → pure (record s { lease_until = until; status = active }) v ≡ (ok sub, w')
      → get s.subscription_id v.subs.subs ≡ some (record s { lease_until = until; status = active })
      → (sub.status ≡ active) × (get_sub sub.subscription_id w'.subs ≡ some sub)
  unfolding get_sub
  renewed_held s until sub v w' e held =
      let same : record s { lease_until = until; status = active } ≡ sub = cc in
      let after : v ≡ w' = cc in (rw (← same) refl, rw (← same) (rw (← after) held))

  -- A subscription that a renewal returns is active, and the store holds it under its id; the
  -- lease asked for lies between the configured bounds.
  pub renew_lem :
      (sid : Text) (lease_seconds : ℕ) (sub : Subscription) (w w' : World)
      → renew env cfg sid lease_seconds w ≡ (ok sub, w')
      → (sub.status ≡ active)
        × (get_sub sub.subscription_id w'.subs ≡ some sub)
        × (cfg.min_lease_seconds ≤ lease_seconds)
        × (lease_seconds ≤ cfg.max_lease_seconds)
  unfolding renew get_sub update now
  renew_lem sid lease_seconds sub w w' h =
      let (u, w1, checked, rest1) =
        bind_ok (lift (check_lease env cfg lease_seconds)) _ w sub w' h in
      let (s, w2, got, rest2) = bind_ok (get_subscription env cfg sid) _ w1 sub w' rest1 in
      let accepted : check_lease env cfg lease_seconds ≡ ok tt = lifted _ w u w1 checked in
      let (least, most) = (check_lease_iff env cfg lease_seconds).0 accepted in
      let (is_on, held) =
        renewed_held s (env.clock w2.ticks + lease_seconds * second) sub _ w' rest2
          (get-put_self _ _ _) in
      (is_on, held, least, most)
