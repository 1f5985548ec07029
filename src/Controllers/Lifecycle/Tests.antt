-- ===== src/Controllers/Lifecycle/Tests.antt =====
-- Runs of the lifecycle, and its theorems at concrete histories.
use morningstar_modbus_api.Prelude.{
  ℕ, zero, suc, ◌≤◌, ◌≡◌, refl, ◌↔◌, true, false, List, [], ◌∷◌, arith,
}
use morningstar_modbus_api.Prelude.Text.{text}
use morningstar_modbus_api.Errors.{ok, err, overflow_error}
use morningstar_modbus_api.Controllers.Lifecycle.{
  DeviceLifecycle, Policy, float, new, offline, online, mark_failure, can_poll,
}
use morningstar_modbus_api.Controllers.Lifecycle.Trace.{
  Call, discovered, connecting, success, failure, Stamped, step, run, failures_since_success,
  Within,
}
use morningstar_modbus_api.Controllers.Lifecycle.Backoff.{
  retry_schedule, run_counts, run_total, run_overflows,
}
use morningstar_modbus_api.Controllers.Lifecycle.Invariant.{IsConsistent, run-IsConsistent}

-- The shipped settings, in seconds.
abbrev policy : Policy
policy = record { threshold = 3; initial_backoff = float 2; max_backoff = 60 }

-- Four failures from the first discovery on, the newest first.
abbrev outage : List Call
outage =
    failure (text "t4") 40
    ∷ failure (text "t3") 30
    ∷ failure (text "t2") 20
    ∷ failure (text "t1") 10
    ∷ connecting
    ∷ discovered false (text "t0")
    ∷ []

abbrev after_outage : DeviceLifecycle
after_outage = record {
  state = offline;
  consecutive_failures = 4;
  reconnect_count = 0;
  endpoint_changes = 0;
  last_discovered = text "t0";
  last_success = [];
  offline_since = text "t3";
  next_retry_monotonic = 56;
  retry_in_seconds = 16;
}

run-outage : run policy new outage ≡ ok after_outage
unfolding run step
run-outage = refl

recovered :
    run policy new (success (text "t5") ∷ outage)
    ≡ ok (record after_outage {
      state = online;
      consecutive_failures = 0;
      reconnect_count = 1;
      last_success = text "t5";
      offline_since = [];
      next_retry_monotonic = 0;
      retry_in_seconds = 0;
    })
unfolding run step
recovered = refl

run_counts_example : after_outage.consecutive_failures ≡ failures_since_success outage
run_counts_example = run_counts policy outage after_outage run-outage

Stamped-outage : Stamped outage
Stamped-outage = ((λ e. cc), ((λ e. cc), ((λ e. cc), ((λ e. cc), ((λ e. cc), tt)))))

run-IsConsistent_example : IsConsistent policy after_outage
run-IsConsistent_example = run-IsConsistent policy outage after_outage Stamped-outage run-outage

run_total_example : (s : DeviceLifecycle) × (run policy new outage ≡ ok s)
run_total_example = run_total policy outage (omega arith)

abbrev storm : ℕ → List Call
storm zero = []
storm (suc n) = failure (text "t") 0 ∷ storm n

failures-storm : (n : ℕ) → failures_since_success (storm n) ≡ n
failures-storm zero = refl
failures-storm (suc n) = omega (arith, failures-storm n)

Within-storm : (m n : ℕ) → n ≤ m → Within m (storm n)
Within-storm m zero h = tt
Within-storm m (suc n) h = (omega (arith, failures-storm n), Within-storm m n (omega arith))

run_overflows_example : run policy new (failure (text "t") 0 ∷ storm 1024) ≡ err overflow_error
run_overflows_example =
    run_overflows policy (text "t") 0 (storm 1024) refl (Within-storm 1024 1024 (omega arith))
      (failures-storm 1024)

retry_schedule_example :
    let d' = (mark_failure policy (text "t") 100 after_outage).0 in
    (d'.consecutive_failures ≡ 5)
    × (d'.retry_in_seconds ≡ 32)
    × (d'.next_retry_monotonic ≡ 132)
    × ((can_poll 131 d' ≡ true) ↔ (132 ≤ 131))
retry_schedule_example =
    retry_schedule policy (text "t") 100 131 after_outage (unfold mark_failure in refl)
