-- ===== src/Controllers/Lifecycle/Trace.antt =====
-- Histories of one lifecycle object: the calls that Watcher makes, in any order.
use morningstar_modbus_api.Prelude.{ℕ, ◌+◌, ◌≤◌, ◌≢◌, Bool, List, [], ◌∷◌}
use morningstar_modbus_api.Prelude.Text.{Text}
use morningstar_modbus_api.Errors.{Result, ok, err, ◌>>=◌}
use morningstar_modbus_api.Controllers.Lifecycle.{
  DeviceLifecycle, Policy, mark_discovered, mark_missing, mark_connecting, mark_success,
  mark_failure,
}

pub data Call : Type 0 where
  discovered : Bool → Text → Call
  missing : Text → Call
  connecting : Call
  success : Text → Call
  failure : Text → ℕ → Call

unfoldable pub step : Policy → Call → DeviceLifecycle → DeviceLifecycle × Result (Unit {0})
unfolding mark_discovered mark_missing mark_connecting mark_success mark_failure
step p (discovered moved now) d = (mark_discovered moved now d, ok tt)
step p (missing now) d = (mark_missing now d, ok tt)
step p connecting d = (mark_connecting d, ok tt)
step p (success now) d = (mark_success now d, ok tt)
step p (failure now monotonic) d = mark_failure p now monotonic d

abbrev pub settled : DeviceLifecycle × Result (Unit {0}) → Result DeviceLifecycle
settled (d, ok _) = ok d
settled (d, err e) = err e

-- The newest call stands first. A call that raises ends the history.
unfoldable pub run : Policy → DeviceLifecycle → List Call → Result DeviceLifecycle
run p d [] = ok d
run p d (c ∷ earlier) = do before ← run p d earlier; settled (step p c before)

-- The failures since the last success, read off the history.
abbrev pub failures_since_success : List Call → ℕ
failures_since_success [] = 0
failures_since_success (success now ∷ earlier) = 0
failures_since_success (failure now t ∷ earlier) = failures_since_success earlier + 1
failures_since_success (discovered m now ∷ earlier) = failures_since_success earlier
failures_since_success (missing now ∷ earlier) = failures_since_success earlier
failures_since_success (connecting ∷ earlier) = failures_since_success earlier

-- No stretch of more than `n` failures without a success between them.
abbrev pub Within : ℕ → List Call → Type 0
Within n [] = Unit
Within n (c ∷ earlier) = (failures_since_success (c ∷ earlier) ≤ n) × Within n earlier

-- The wall clock never reads the empty text.
abbrev pub Stamped : List Call → Type 0
Stamped [] = Unit
Stamped (discovered m now ∷ earlier) = (now ≢ []) × Stamped earlier
Stamped (missing now ∷ earlier) = (now ≢ []) × Stamped earlier
Stamped (connecting ∷ earlier) = Stamped earlier
Stamped (success now ∷ earlier) = (now ≢ []) × Stamped earlier
Stamped (failure now t ∷ earlier) = (now ≢ []) × Stamped earlier
