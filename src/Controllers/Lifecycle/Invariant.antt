-- ===== src/Controllers/Lifecycle/Invariant.antt =====
-- What holds of a lifecycle object after any calls
-- (src/morningstar_modbus/controllers/lifecycle.py).
use morningstar_modbus_api.Prelude.{
  ℕ, ◌≤◌, ◌<◌, ◌≡◌, ◌≢◌, refl, sym, ap, ◌∙◌, subst, List, [], ◌∷◌, arith, Bool, inl, inr,
}
use morningstar_modbus_api.Prelude.Text.{Text}
use morningstar_modbus_api.Errors.{ok, ok-injective, >>=-eq-ok}
use morningstar_modbus_api.Controllers.Lifecycle.{
  LifecycleState, DeviceLifecycle, Policy, new, mark_discovered, mark_missing, mark_connecting,
  mark_success, mark_failure, note_failure, online, degraded, offline, rediscovering,
}
use morningstar_modbus_api.Controllers.Lifecycle.Trace.{Call, step, settled, run, Stamped}
use morningstar_modbus_api.Controllers.Lifecycle.Backoff.{scheduled, failure_cases}

-- What each state promises about the failure count and the start of the outage.
abbrev pub Promises : Policy → LifecycleState → ℕ → Text → Type 0
Promises p online failures since = (failures ≡ 0) × (since ≡ [])
Promises p degraded failures since = (0 < failures) × (failures < p.threshold)
Promises p offline failures since = (p.threshold ≤ failures) × (since ≢ [])
Promises p rediscovering failures since = since ≢ []
Promises p _ failures since = Unit

pub record IsConsistent (p : Policy) (d : DeviceLifecycle) : Type 0 where
  pub promise : Promises p d.state d.consecutive_failures d.offline_since
  pub bounded : d.retry_in_seconds ≤ p.max_backoff
  pub later : d.retry_in_seconds ≤ d.next_retry_monotonic

IsConsistent-new : (p : Policy) → IsConsistent p new
IsConsistent-new p = record { promise = tt; bounded = omega arith; later = omega arith }

module _ (p : Policy) (d : DeviceLifecycle) (h : IsConsistent p d) where
  missing-IsConsistent : (now : Text) → now ≢ [] → IsConsistent p (mark_missing now d)
  unfolding mark_missing
  missing-IsConsistent now stamp = record {
    promise = ground arith;
    bounded = h.bounded;
    later = h.later;
  }

  discovered-IsConsistent :
      (moved : Bool) (now : Text) → IsConsistent p (mark_discovered moved now d)
  unfolding mark_discovered
  discovered-IsConsistent moved now = record {
    promise = ground (arith, h.promise);
    bounded = omega arith;
    later = omega arith;
  }

  connecting-IsConsistent : IsConsistent p (mark_connecting d)
  unfolding mark_connecting
  connecting-IsConsistent = record {
    promise = ground (arith, h.promise);
    bounded = h.bounded;
    later = h.later;
  }

  success-IsConsistent : (now : Text) → IsConsistent p (mark_success now d)
  unfolding mark_success
  success-IsConsistent now = record {
    promise = (refl, refl);
    bounded = omega arith;
    later = omega arith;
  }

  noted :
      (now : Text)
      → now ≢ []
      → let s = note_failure p now d in Promises p s.state s.consecutive_failures s.offline_since
  unfolding note_failure
  noted now stamp = ground arith

  failure-IsConsistent :
      (now : Text) (t : ℕ)
      → now ≢ []
      → (s : DeviceLifecycle) → settled (mark_failure p now t d) ≡ ok s
      → IsConsistent p s
  unfolding note_failure
  failure-IsConsistent now t stamp s e = elim (failure_cases p now t d p.initial_backoff refl) [
    | inl (r, _) ↦
        let same : scheduled p now t d ≡ s = ok-injective _ s (sym (ap settled r) ∙ e) in
        subst (IsConsistent p) same
          (record { promise = noted now stamp; bounded = omega arith; later = omega arith })
    | inr (r, _, _) ↦ absurd (ground (arith, ap settled r))
  ]

-- One call keeps the invariant.
step-IsConsistent :
    (p : Policy) (c : Call) (earlier : List Call) (d s : DeviceLifecycle)
    → Stamped (c ∷ earlier)
    → IsConsistent p d
    → settled (step p c d) ≡ ok s
    → IsConsistent p s
unfolding step
step-IsConsistent p (Call.discovered moved now) earlier d s w h e =
    subst (IsConsistent p) (ok-injective _ s e) (discovered-IsConsistent p d h moved now)
step-IsConsistent p (Call.missing now) earlier d s w h e =
    subst (IsConsistent p) (ok-injective _ s e) (missing-IsConsistent p d h now w.0)
step-IsConsistent p Call.connecting earlier d s w h e =
    subst (IsConsistent p) (ok-injective _ s e) (connecting-IsConsistent p d h)
step-IsConsistent p (Call.success now) earlier d s w h e =
    subst (IsConsistent p) (ok-injective _ s e) (success-IsConsistent p d h now)
step-IsConsistent p (Call.failure now t) earlier d s w h e =
    failure-IsConsistent p d h now t w.0 s e

Stamped-earlier : (c : Call) (earlier : List Call) → Stamped (c ∷ earlier) → Stamped earlier
Stamped-earlier (Call.discovered moved now) earlier w = w.1
Stamped-earlier (Call.missing now) earlier w = w.1
Stamped-earlier Call.connecting earlier w = w
Stamped-earlier (Call.success now) earlier w = w.1
Stamped-earlier (Call.failure now t) earlier w = w.1

-- After any calls whose clock texts are not empty: a controller that is online has no failures and
-- no outage, a degraded one has some failures and fewer than the threshold, an offline one has at
-- least the threshold and a start of the outage, a rediscovering one has a start of the outage,
-- and the retry delay is at most the limit and at most the next retry time.
pub run-IsConsistent :
    (p : Policy) (calls : List Call) (s : DeviceLifecycle)
    → Stamped calls
    → run p new calls ≡ ok s
    → IsConsistent p s
unfolding run
run-IsConsistent p [] s w e = subst (IsConsistent p) (ok-injective _ s e) (IsConsistent-new p)
run-IsConsistent p (c ∷ earlier) s w e =
    let (d, before, last) = >>=-eq-ok (run p new earlier) _ e in
    step-IsConsistent p c earlier d s w
      (run-IsConsistent p earlier d (Stamped-earlier c earlier w) before) last
