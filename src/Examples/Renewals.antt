-- ===== src/Examples/Renewals.antt =====
-- A lease that is renewed once, before the subscription is gone.
use a2a_events_python.Common.{ℕ, zero, suc, ◌*◌, ◌≡◌, refl, arith, false, none, []}
use a2a_events_python.Errors.{Result, ok}
use a2a_events_python.LeaseRenewer.{Settings, Renewer, renewal_delay, run, after, retry_pause}
use a2a_events_python.LeaseRenewer.InTime.{gone, run_ends_at_gone}

abbrev answers : ℕ → Result ℕ
answers zero = ok 9_000_000
answers (suc n) = gone

abbrev settings : Settings
settings = record {
  renew_fraction = 600_000;
  min_sleep = 1_000_000;
  now = λ n. n * 1_000_000;
  stopped = λ n. false;
  renew = answers;
}

abbrev idle : Renewer
idle = record { renewals = []; last_error = none; slept = []; ticks = 0; looks = 0; calls = 0 }

two_calls : (run settings 4 5 5_000_000 idle).1.calls ≡ 2
unfolding run after retry_pause renewal_delay
two_calls = refl

run_ends_at_gone_example : (run settings 4 5 5_000_000 idle).1.calls ≡ 2
run_ends_at_gone_example =
    run_ends_at_gone settings 4 5 5_000_000 idle 1 (omega arith) (omega (arith, two_calls)) refl
