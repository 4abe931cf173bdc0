-- ===== src/LeaseRenewer/InTime.antt =====
-- When a lease is renewed, and when no more.
use Prim.Native.Nat.{max}
use a2a_events_python.Common.{
  ℕ, zero, suc, ◌+◌, ◌-◌, ◌≤◌, ◌<◌, ◌≡◌, ◌≢◌, refl, sym, ap, ◌∙◌, inl, inr, arith, false, leb,
  Bool-cases,
}
use a2a_events_python.Errors.{Result, raise, Exn, protocol, subscription_not_found, Result-cases}
use a2a_events_python.Exec.{Exec}
use a2a_events_python.LeaseRenewer.{
  Settings, Renewer, renewal_delay, reserve, retry_pause, terminal, after, run,
}

-- A lease is renewed in time. While at least the shortest sleep is left of the lease, the loop wakes
-- up before the lease runs out: when only the reserve is left of it, or after the shortest sleep if
-- that is later.
pub renewal_delay-in_time :
    (s : Settings) (now lease_until lease_seconds : ℕ)
    → now + s.min_sleep ≤ lease_until
    → (now + renewal_delay s now lease_until lease_seconds ≤ lease_until)
      × (now + renewal_delay s now lease_until lease_seconds
          ≡ max (now + s.min_sleep) (lease_until - reserve s lease_seconds))
unfolding renewal_delay
renewal_delay-in_time s now lease_until lease_seconds h = (omega arith, omega arith)

abbrev pub gone : Result ℕ
gone = raise (protocol subscription_not_found)

module _ (s : Settings) where
  -- Nothing is asked of the publisher after it has said that the subscription is gone. The calls are
  -- counted from `c` on.
  abbrev Ends : ℕ → ℕ → Type 0
  Ends c last = (i : ℕ) → c ≤ i → i < last → s.renew i ≡ gone → last ≡ suc i

  abbrev Again : (ℕ → Exec Renewer (Unit {0})) → Type 0
  Again again = (u : ℕ) (t : Renewer) → Ends t.calls (again u t).1.calls

  -- only the call `c` is below `suc c`
  first_only : (c i : ℕ) → c ≤ i → i < suc c → s.renew i ≡ gone → s.renew c ≡ gone
  first_only c i low high said = let e : i ≡ c = omega arith in sym (ap s.renew e) ∙ said

  next-Ends :
      (again : ℕ → Exec Renewer (Unit {0})) (u c : ℕ) (t : Renewer)
      → s.renew c ≢ gone
      → t.calls ≡ suc c
      → Again again
      → Ends c (again u t).1.calls
  next-Ends again u c t other e ih i low high said = elim (Bool-cases (leb (suc c) i)) [
    | inl past ↦ ih u t i (ground arith) high said
    | inr here ↦ absurd (other (first_only c i low (ground arith) said))
  ]

  last-Ends : (c last : ℕ) → s.renew c ≢ gone → last ≡ suc c → Ends c last
  last-Ends c last other e i low high said = absurd (other (first_only c i low (omega arith) said))

  not_gone : (c : ℕ) (e : Exn) → s.renew c ≡ raise e → terminal s e ≡ false → s.renew c ≢ gone
  not_gone c e said h same =
      let k : raise e ≡ gone = sym said ∙ same in absurd (terminal_gone e k h)
    where
      terminal_gone : (e : Exn) → raise e ≡ gone → terminal s e ≡ false → ⊥
      terminal_gone (protocol subscription_not_found) k h = cc
      terminal_gone e k h = cc

  failed-Ends :
      (again : ℕ → Exec Renewer (Unit {0})) (until c : ℕ) (e : Exn) (r : Renewer)
      → s.renew c ≡ raise e
      → terminal s e ≡ false
      → r.calls ≡ suc c
      → Again again
      → Ends c (after s again until (raise e) r).1.calls
  unfolding after retry_pause
  failed-Ends again until c e r said going counted ih =
      elim (Bool-cases (leb until (s.now r.ticks))) [
        | inl lapsed ↦
            let done = last-Ends c r.calls (not_gone c e said going) counted in
            rw (after, going) (rw (retry_pause, lapsed) done)
        | inr left ↦
            rw (after, going)
              (rw (retry_pause, left)
                (next-Ends again until c _ (not_gone c e said going) counted ih))
      ]

  after-Ends :
      (again : ℕ → Exec Renewer (Unit {0})) (until c : ℕ) (r : Renewer)
      → r.calls ≡ suc c
      → Again again
      → Ends c (after s again until (s.renew c) r).1.calls
  unfolding after
  after-Ends again until c r counted ih = elim (Result-cases (s.renew c)) [
    | inl (granted, said) ↦ rw said (next-Ends again granted c _ (λ same. cc) counted ih)
    | inr (e, said) ↦ elim (Bool-cases (terminal s e)) [
      | inl final ↦ rw said (rw (after, final) (λ i low high gone_too. omega arith))
      | inr going ↦ rw said (failed-Ends again until c e r said going counted ih)
    ]
  ]

  -- After the publisher has answered that the subscription is gone, it is not called again: in a run
  -- of any length, a call with that answer is the last one.
  pub run_ends_at_gone :
      (fuel lease_seconds until : ℕ) (r : Renewer) (i : ℕ)
      → r.calls ≤ i
      → i < (run s fuel lease_seconds until r).1.calls
      → s.renew i ≡ gone
      → (run s fuel lease_seconds until r).1.calls ≡ suc i
  unfolding run
  run_ends_at_gone zero lease_seconds until r i low high said = absurd (omega arith)
  run_ends_at_gone (suc fuel) lease_seconds until r i low high said =
      elim (Bool-cases (s.stopped r.looks)) [
        | inl stop ↦ absurd (let h = rw (run, stop) at high in omega arith)
        | inr runs ↦ elim (Bool-cases (s.stopped (suc r.looks))) [
          | inl stop ↦
              absurd (let h = rw (run, runs) at high in let k = rw stop at h in omega arith)
          | inr runs' ↦
              let h = rw (run, runs) at high in
              let k = rw runs' at h in
              let step =
                after-Ends (run s fuel lease_seconds) until r.calls _ refl
                  (λ u t j. run_ends_at_gone fuel lease_seconds u t j) i low k said in
              rw (run, runs) (rw runs' step)
        ]
      ]
