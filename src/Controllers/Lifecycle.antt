-- ===== src/Controllers/Lifecycle.antt =====
-- DeviceLifecycle of src/morningstar_modbus/controllers/lifecycle.py: the connection state of one
-- controller and its retry policy. A method returns the new object; the clocks that it reads are
-- arguments. Times are whole ticks of the monotonic clock, an arbitrary fraction of a second.
pub mod Trace
pub mod Backoff
pub mod Invariant
mod Tests
use morningstar_modbus_api.Prelude.{
  ℕ, suc, ◌+◌, ◌-◌, ◌*◌, ◌^◌, min, Bool, true, false, not, ◌&&◌, ◌||◌, List, [], ◌∷◌, ltb, leb,
  ◌==◌, if◌then◌else◌,
}
use morningstar_modbus_api.Prelude.Text.{Text}
use morningstar_modbus_api.Errors.{Result, ok, err, overflow_error}

pub data LifecycleState : Type 0 where
  discovered connecting online degraded offline rediscovering : LifecycleState

abbrev pub is_online : LifecycleState → Bool
is_online online = true
is_online _ = false

abbrev pub is_offline : LifecycleState → Bool
is_offline offline = true
is_offline _ = false

abbrev pub is_rediscovering : LifecycleState → Bool
is_rediscovering rediscovering = true
is_rediscovering _ = false

abbrev pub is_degraded : LifecycleState → Bool
is_degraded degraded = true
is_degraded _ = false

-- `not text`
abbrev pub is_empty : Text → Bool
is_empty [] = true
is_empty (c ∷ s) = false

pub record DeviceLifecycle : Type 0 where
  pub state : LifecycleState
  pub consecutive_failures : ℕ
  pub reconnect_count : ℕ
  pub endpoint_changes : ℕ
  pub last_discovered : Text
  pub last_success : Text
  pub offline_since : Text
  pub next_retry_monotonic : ℕ
  pub retry_in_seconds : ℕ

abbrev pub new : DeviceLifecycle
new = record {
  state = discovered;
  consecutive_failures = 0;
  reconnect_count = 0;
  endpoint_changes = 0;
  last_discovered = [];
  last_success = [];
  offline_since = [];
  next_retry_monotonic = 0;
  retry_in_seconds = 0;
}

abbrev pub rediscovered_state : LifecycleState → LifecycleState
rediscovered_state offline = connecting
rediscovered_state rediscovering = connecting
rediscovered_state online = online
rediscovered_state _ = discovered

unfoldable pub mark_discovered : Bool → Text → DeviceLifecycle → DeviceLifecycle
mark_discovered endpoint_changed utcnow d = record d {
  state = rediscovered_state d.state;
  endpoint_changes = if endpoint_changed then d.endpoint_changes + 1 else d.endpoint_changes;
  last_discovered = utcnow;
  next_retry_monotonic = 0;
  retry_in_seconds = 0;
}

unfoldable pub mark_missing : Text → DeviceLifecycle → DeviceLifecycle
mark_missing utcnow d = record d {
  state = if is_offline d.state then d.state else rediscovering;
  offline_since = if is_empty d.offline_since then utcnow else d.offline_since;
}

unfoldable pub mark_connecting : DeviceLifecycle → DeviceLifecycle
mark_connecting d = record d { state = if is_online d.state then d.state else connecting }

unfoldable pub mark_success : Text → DeviceLifecycle → DeviceLifecycle
mark_success utcnow d = record d {
  state = online;
  consecutive_failures = 0;
  reconnect_count =
      if (is_offline d.state || is_rediscovering d.state || is_degraded d.state)
        || not (d.consecutive_failures == 0)
      then d.reconnect_count + 1
      else d.reconnect_count;
  last_success = utcnow;
  offline_since = [];
  next_retry_monotonic = 0;
  retry_in_seconds = 0;
}

-- A Python number of seconds, in ticks. The type of a setting is what the TOML file or the default
-- gave: a float for `2.0`, an int for `2`.
pub data Number : Type 0 where
  int float : ℕ → Number

abbrev pub ticks : Number → ℕ
ticks (int n) = n
ticks (float n) = n

-- initial_backoff * (2**exponent). A float operand converts the int, which raises from 2**1024 on.
-- A product beyond the floats is infinite and loses to max_backoff, as the exact product does.
unfoldable pub times_pow : Number → ℕ → Result ℕ
times_pow (int n) e = ok (n * 2 ^ e)
times_pow (float n) e = if leb 1024 e then err overflow_error else ok (n * 2 ^ e)

pub record Policy : Type 0 where
  pub threshold : ℕ
  pub initial_backoff : Number
  pub max_backoff : ℕ

-- The part of mark_failure above the delay, which stands even if the delay raises.
unfoldable pub note_failure : Policy → Text → DeviceLifecycle → DeviceLifecycle
note_failure p utcnow d =
    let failures = d.consecutive_failures + 1 in
    let is_down = leb p.threshold failures in
    record d {
      consecutive_failures = failures;
      state = if is_down then offline else degraded;
      offline_since = if is_down && is_empty d.offline_since then utcnow else d.offline_since;
    }

abbrev retry_after : ℕ → ℕ → DeviceLifecycle → Result ℕ → DeviceLifecycle × Result (Unit {0})
retry_after max_backoff monotonic d (ok product) =
    let delay = min max_backoff product in
    (record d { retry_in_seconds = delay; next_retry_monotonic = monotonic + delay }, ok tt)
retry_after max_backoff monotonic d (err e) = (d, err e)

-- The object comes back beside the result, since what was written before a raise stays written.
unfoldable pub mark_failure :
    Policy → Text → ℕ → DeviceLifecycle → DeviceLifecycle × Result (Unit {0})
unfolding note_failure times_pow
mark_failure p utcnow monotonic d =
    let d' = note_failure p utcnow d in
    retry_after p.max_backoff monotonic d'
      (times_pow p.initial_backoff (d'.consecutive_failures - 1))

unfoldable pub can_poll : ℕ → DeviceLifecycle → Bool
can_poll now d = not (is_rediscovering d.state) && leb d.next_retry_monotonic now
