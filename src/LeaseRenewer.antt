-- ===== src/LeaseRenewer.antt =====
-- lease.py: a subscriber's loop that keeps a lease from running out. Times are microseconds, the
-- fraction is in millionths, and numbers are exact where the source has floats. The clock, the stop
-- flag and the publisher's answers are functions of how often they were asked.
pub mod InTime
use Prim.Native.Nat.{min, max}
use a2a_events_python.Common.{
  ℕ, zero, suc, ◌+◌, ◌-◌, ◌*◌, Bool, true, false, ◌&&◌, Option, some, List, [], ◌∷◌, ◌++◌, leb, ltb,
  if◌then◌else◌,
}
use a2a_events_python.Errors.{
  Result, ok, raise, Exn, protocol, subscription_not_found, value_error, out_of_fuel,
}
use a2a_events_python.Exec.{Exec, ◌>>=◌, ◌>>◌, pure, throw, modify}

pub record Settings : Type 0 where
  pub renew_fraction : ℕ
  pub min_sleep : ℕ
  pub now : ℕ → ℕ
  pub stopped : ℕ → Bool
  pub renew : ℕ → Result ℕ

-- the check of `__init__`
unfoldable pub init : Settings → Result Settings
init s =
    if ltb 0 s.renew_fraction && ltb s.renew_fraction 1_000_000 then ok s else raise value_error

-- `renewals` and `last_error`, what was slept, and how often the clock, the flag and the publisher
-- were asked
pub record Renewer : Type 0 where
  pub renewals : List ℕ
  pub last_error : Option Exn
  pub slept : List ℕ
  pub ticks : ℕ
  pub looks : ℕ
  pub calls : ℕ

module _ (s : Settings) where
  abbrev tick : Exec Renewer ℕ
  tick r = (ok (s.now r.ticks), record r { ticks = suc r.ticks })

  abbrev look : Exec Renewer Bool
  look r = (ok (s.stopped r.looks), record r { looks = suc r.looks })

  abbrev sleep : ℕ → Exec Renewer (Unit {0})
  sleep d r = (ok tt, record r { slept = r.slept ++ d ∷ [] })

  -- What is left of the lease when it is renewed: (1.0 - renew_fraction) * lease_seconds
  abbrev pub reserve : ℕ → ℕ
  reserve lease_seconds = (1_000_000 - s.renew_fraction) * lease_seconds

  -- `_renewal_delay` at a reading of the clock. What is negative in the source is 0 here, which
  -- changes nothing under the maximum.
  unfoldable pub renewal_delay : ℕ → ℕ → ℕ → ℕ
  renewal_delay now lease_until lease_seconds =
      max s.min_sleep (lease_until - now - reserve lease_seconds)

  -- `_retry_pause`
  unfoldable pub retry_pause : ℕ → Exec Renewer Bool
  retry_pause lease_until = do
    now ← tick
    if leb lease_until now
        then pure false
        else (do sleep (min s.min_sleep (lease_until - now)); pure true)

  -- the call of `renew`, with its exception as a value
  abbrev call : Exec Renewer (Result ℕ)
  call r = (ok (s.renew r.calls), record r { calls = suc r.calls })

  abbrev terminal : Exn → Bool
  terminal (protocol subscription_not_found) = true
  terminal _ = false

  -- what follows a call: `again` is the next round, with the lease it has
  unfoldable pub after : (ℕ → Exec Renewer (Unit {0})) → ℕ → Result ℕ → Exec Renewer (Unit {0})
  after again lease_until (ok granted) = do
    modify (λ r. record r { renewals = r.renewals ++ granted ∷ [] })
    again granted
  after again lease_until (raise e) = do
    modify (λ r. record r { last_error = some e })
    if terminal e
        then pure tt
        else (do more ← retry_pause lease_until; if more then again lease_until else pure tt)

  -- `_run`, with fuel for its rounds
  unfoldable pub run : ℕ → ℕ → ℕ → Exec Renewer (Unit {0})
  run zero lease_seconds lease_until = throw out_of_fuel
  run (suc fuel) lease_seconds lease_until = do
    stop ← look
    if stop then pure tt else (do
      now ← tick
      sleep (renewal_delay now lease_until lease_seconds)
      stop' ← look
      if stop'
          then pure tt
          else (do answer ← call; after (run fuel lease_seconds) lease_until answer))
