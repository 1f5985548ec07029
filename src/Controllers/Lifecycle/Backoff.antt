-- ===== src/Controllers/Lifecycle/Backoff.antt =====
-- The retry delay of mark_failure, and when it raises
-- (src/morningstar_modbus/controllers/lifecycle.py).
use native.Mathlib.Nat.{pow-suc}
use morningstar_modbus_api.Prelude.{
  ℕ, zero, suc, ◌+◌, ◌-◌, ◌*◌, ◌^◌, ◌≤◌, ◌<◌, min, ◌≡◌, refl, ap, ◌↔◌, ◌⊎◌, inl, inr, true, List,
  [], ◌∷◌, arith, leb, Bool-cases,
}
use morningstar_modbus_api.Prelude.Text.{Text}
use morningstar_modbus_api.Errors.{Error, >>=-eq-ok, Result, ok, err, overflow_error}
use morningstar_modbus_api.Controllers.Lifecycle.{
  DeviceLifecycle, Number, int, float, ticks, Policy, note_failure, mark_failure, new,
  mark_discovered, mark_missing, mark_connecting, mark_success, can_poll,
}
use morningstar_modbus_api.Controllers.Lifecycle.Trace.{
  Call, discovered, missing, connecting, success, failure, step, settled, run,
  failures_since_success, Within,
}

pow_mono : (m n : ℕ) → m ≤ n → 2 ^ m ≤ 2 ^ n
pow_mono zero zero h = omega arith
pow_mono zero (suc n) h = omega (arith, pow-suc 2 n, pow_mono zero n (omega arith))
pow_mono (suc m) zero h = absurd (omega arith)
pow_mono (suc m) (suc n) h = omega (arith, pow-suc 2 m, pow-suc 2 n, pow_mono m n (omega arith))

-- The delay after one more failure than `failures`.
abbrev pub delay : Policy → ℕ → ℕ
delay p failures = min p.max_backoff (ticks p.initial_backoff * 2 ^ failures)

-- More failures never wait less, and no wait passes the limit.
pub delay_mono :
    (p : Policy) (m n : ℕ) → m ≤ n → (delay p m ≤ delay p n) × (delay p n ≤ p.max_backoff)
delay_mono p m n h = (grind (arith, pow_mono m n h), omega arith)

-- What mark_failure leaves behind when the delay is computed, and when it is not.
abbrev pub scheduled : Policy → Text → ℕ → DeviceLifecycle → DeviceLifecycle
scheduled p now t d = record (note_failure p now d) {
  retry_in_seconds = delay p d.consecutive_failures;
  next_retry_monotonic = t + delay p d.consecutive_failures;
}

pub failure_cases :
    (p : Policy) (now : Text) (t : ℕ) (d : DeviceLifecycle) (b : Number)
    → p.initial_backoff ≡ b
    → ((mark_failure p now t d ≡ (scheduled p now t d, ok tt))
        × ((b ≡ int (ticks b)) ⊎ (d.consecutive_failures < 1024)))
      ⊎ ((mark_failure p now t d ≡ (note_failure p now d, err overflow_error))
          × (b ≡ float (ticks b))
          × (1024 ≤ d.consecutive_failures))
unfolding mark_failure
failure_cases p now t d (int n) e =
    let back : d.consecutive_failures + 1 - 1 ≡ d.consecutive_failures = omega arith in
    inl (ground arith, inl refl)
failure_cases p now t d (float n) e =
    let back : d.consecutive_failures + 1 - 1 ≡ d.consecutive_failures = omega arith in
    elim (Bool-cases (leb 1024 d.consecutive_failures)) [
      | inl many ↦ inr (ground arith, refl, ground arith)
      | inr few ↦ inl (ground arith, inr (ground arith))
    ]

-- mark_failure raises exactly when the configured first delay is a float and 1024 failures stand
-- already, and then it is OverflowError.
pub mark_failure_raises :
    (p : Policy) (now : Text) (t : ℕ) (d : DeviceLifecycle)
    → ((mark_failure p now t d).1 ≡ err overflow_error)
      ↔ ((p.initial_backoff ≡ float (ticks p.initial_backoff)) × (1024 ≤ d.consecutive_failures))
mark_failure_raises p now t d = elim (failure_cases p now t d p.initial_backoff refl) [
  | inl (e, inl whole) ↦ ((λ r. absurd (ground arith)), λ r. absurd (ground arith))
  | inl (e, inr few) ↦ ((λ r. absurd (ground arith)), λ r. absurd (omega arith))
  | inr (e, real, many) ↦
      ((λ r. (real, many)), λ r. ap (λ (x : DeviceLifecycle × Result Unit). x.1) e)
]

-- After a failure that is recorded, the delay is the configured first delay doubled once for each
-- failure before it and cut off at the limit, and the controller may be polled exactly from the
-- moment of the failure plus that delay on.
pub retry_schedule :
    (p : Policy) (now : Text) (t clock : ℕ) (d : DeviceLifecycle)
    → (mark_failure p now t d).1 ≡ ok tt
    → let d' = (mark_failure p now t d).0 in
      (d'.consecutive_failures ≡ d.consecutive_failures + 1)
      × (d'.retry_in_seconds ≡ delay p d.consecutive_failures)
      × (d'.next_retry_monotonic ≡ t + delay p d.consecutive_failures)
      × ((can_poll clock d' ≡ true) ↔ (t + delay p d.consecutive_failures ≤ clock))
unfolding can_poll note_failure
retry_schedule p now t clock d h = elim (failure_cases p now t d p.initial_backoff refl) [
  | inl (e, _) ↦ rw e (refl, refl, refl, ((λ r. ground arith), λ r. ground arith))
  | inr (e, _, _) ↦ absurd (ground arith)
]

settled_raise :
    (r : DeviceLifecycle × Result (Unit {0})) {e : Error} → r.1 ≡ err e → settled r ≡ err e
settled_raise (d, ok _) h = absurd (ground arith)
settled_raise (d, err e) h = ground arith

-- One call changes the failure count as the history says.
step_counts :
    (p : Policy) (c : Call) (earlier : List Call) (d s : DeviceLifecycle)
    → d.consecutive_failures ≡ failures_since_success earlier
    → settled (step p c d) ≡ ok s
    → s.consecutive_failures ≡ failures_since_success (c ∷ earlier)
unfolding step
step_counts p (discovered m now) earlier d s h e = ground arith
step_counts p (missing now) earlier d s h e = ground arith
step_counts p connecting earlier d s h e = ground arith
step_counts p (success now) earlier d s h e = ground arith
step_counts p (failure now t) earlier d s h e = ground arith

-- In every history that did not raise, consecutive_failures is the number of failures since the
-- last success.
pub run_counts :
    (p : Policy) (h : List Call) (s : DeviceLifecycle)
    → run p new h ≡ ok s
    → s.consecutive_failures ≡ failures_since_success h
unfolding run
run_counts p [] s e = ground arith
run_counts p (c ∷ earlier) s e =
    let (d, before, last) = >>=-eq-ok (run p new earlier) _ e in
    step_counts p c earlier d s (run_counts p earlier d before) last

-- A call other than a failure never raises, nor does a failure on at most 1023 others.
step_total :
    (p : Policy) (c : Call) (earlier : List Call) (d : DeviceLifecycle)
    → d.consecutive_failures ≡ failures_since_success earlier
    → failures_since_success (c ∷ earlier) ≤ 1024
    → (s : DeviceLifecycle) × (settled (step p c d) ≡ ok s)
unfolding step
step_total p (discovered m now) earlier d h b = (mark_discovered m now d, refl)
step_total p (missing now) earlier d h b = (mark_missing now d, refl)
step_total p connecting earlier d h b = (mark_connecting d, refl)
step_total p (success now) earlier d h b = (mark_success now d, refl)
step_total p (failure now t) earlier d h b = elim (failure_cases p now t d p.initial_backoff refl) [
  | inl (e, _) ↦ (scheduled p now t d, ap settled e)
  | inr (e, _, many) ↦ absurd (omega arith)
]

-- A history with no more than 1024 failures in a row runs to its end, whatever the policy.
pub run_total :
    (p : Policy) (h : List Call) → Within 1024 h → (s : DeviceLifecycle) × (run p new h ≡ ok s)
unfolding run
run_total p [] w = (new, refl)
run_total p (c ∷ earlier) w =
    let (d, before) = run_total p earlier w.1 in
    let (s, last) = step_total p c earlier d (run_counts p earlier d before) w.0 in
    (s, rw before last)

-- With a first delay given as a float, the failure after 1024 in a row raises OverflowError.
pub run_overflows :
    (p : Policy) (now : Text) (t : ℕ) (h : List Call)
    → p.initial_backoff ≡ float (ticks p.initial_backoff)
    → Within 1024 h
    → failures_since_success h ≡ 1024
    → run p new (failure now t ∷ h) ≡ err overflow_error
unfolding run
run_overflows p now t h real w many =
    let (d, before) = run_total p h w in
    let count = run_counts p h d before in
    let raised = (mark_failure_raises p now t d).1 (real, omega arith) in
    rw before (unfold step in settled_raise (mark_failure p now t d) raised)
