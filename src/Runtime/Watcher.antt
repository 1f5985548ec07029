-- ===== src/Runtime/Watcher.antt =====
-- The state of the watcher and the rebinding of its controllers to the endpoints of a discovery:
-- Watcher of src/morningstar_modbus/runtime/watcher.py. The state of a client and the intelligence
-- of a device are parameters. Closed clients, writes to the store and started tasks are kept in
-- lists, since they leave the object.
pub mod Refresh
pub mod Polls
mod Tests
use morningstar_modbus_api.Prelude.{
  ℕ, Bool, true, false, not, Option, none, some, List, [], ◌∷◌, ◌++◌, ◌&&◌, ◌||◌, any, map,
  if◌then◌else◌,
}
use morningstar_modbus_api.Prelude.Text.{Text, text_eq}
use morningstar_modbus_api.Prelude.Maps.{lookup, put, remove}
use morningstar_modbus_api.Controllers.Lifecycle.{
  DeviceLifecycle, new, mark_discovered, mark_missing, can_poll,
}
use morningstar_modbus_api.Catalog.Types.{DeviceProfileSpec}
use morningstar_modbus_api.Catalog.Words.{Words, BlockKey}
use morningstar_modbus_api.Polling.Samples.{PollTrafficTracker}
use morningstar_modbus_api.Polling.Limiter.{PollPersistenceLimiter}
use morningstar_modbus_api.Runtime.Endpoints.{Endpoint, DiscoveredDevice, Candidate, same_endpoint}

-- A CatalogProfile as it is kept between polls.
pub record KeptProfile : Type 0 where
  pub spec : DeviceProfileSpec
  pub metadata : Words
  pub cached_blocks : List BlockKey

-- What is handed to the store: the key of a successful poll, or of a failed one.
pub data Write : Type 0 where
  saved_poll saved_error : Text → Write

pub record Watcher (S I : Type 0) : Type 0 where
  pub devices : List (Text × DiscoveredDevice I)
  pub device_ids : List (Text × Text)
  pub controller_ids : List (Text × Text)
  pub controller_keys : List (Text × Text)
  pub canonical_device_ids : List (Text × Text)
  pub clients : List (Text × S)
  pub profiles : List (Text × KeptProfile)
  pub intelligence : List (Text × I)
  pub lifecycles : List (Text × DeviceLifecycle)
  pub traffic : List (Text × PollTrafficTracker)
  pub present_keys : List Text
  pub present_controller_ids : List Text
  pub history_running : List Text
  pub history_attempted_controllers : List Text
  pub limiter : PollPersistenceLimiter
  pub closed : List S
  pub writes : List Write

abbrev pub option_list : {S : Type 0} → Option S → List S
option_list none = []
option_list (some s) = s ∷ []

-- self._lifecycles.setdefault(key, DeviceLifecycle())
abbrev pub lifecycle_or_new : Option DeviceLifecycle → DeviceLifecycle
lifecycle_or_new none = new
lifecycle_or_new (some l) = l

-- previous_key is not None and previous_key != key
abbrev pub has_moved : Option Text → Text → Bool
has_moved none key = false
has_moved (some previous_key) key = not (text_eq previous_key key)

abbrev pub differs : {I : Type 0} → Option (DiscoveredDevice I) → Endpoint → Bool
differs none e = false
differs (some previous) e = not (same_endpoint previous.endpoint e)

abbrev first_device :
    {I : Type 0}
    → Option (DiscoveredDevice I)
    → Option (DiscoveredDevice I)
    → Option (DiscoveredDevice I)
first_device none other = other
first_device (some d) other = some d

abbrev pub profile_changed : {I : Type 0} → Option (DiscoveredDevice I) → Text → Bool
profile_changed none profile = false
profile_changed (some previous) profile = not (text_eq previous.profile profile)

abbrev pub is_key : Option Text → Text → Bool
is_key none key = false
is_key (some previous_key) key = text_eq previous_key key

abbrev pub learnt : {I : Type 0} → Option I → Text → List (Text × I) → List (Text × I)
learnt none key d = d
learnt (some i) key d = put key i d

abbrev forgotten : Bool → Text → List (Text × KeptProfile) → List (Text × KeptProfile)
forgotten test key d = if test then remove key d else d

-- self._present_controller_ids - found_controller_ids
abbrev pub absent_from : {I : Type 0} → List (Text × Candidate I) → List Text → List Text
absent_from selected [] = []
absent_from selected (c ∷ cs) =
    let rest = absent_from selected cs in
    if any (λ s. text_eq c (s.0)) selected then rest else c ∷ rest

abbrev pub is_some {ℓ} : {A : Type ℓ} → Option A → Bool
is_some none = false
is_some (some a) = true

module _ {S I : Type 0} where
  -- client = self._clients.pop(key, None), and its close
  abbrev pub drop_client : Text → Watcher S I → Watcher S I
  drop_client key w = record w {
    clients = remove key w.clients;
    closed = option_list (lookup key w.clients) ++ w.closed;
  }

  abbrev pub lifecycle_of : Text → Watcher S I → DeviceLifecycle
  lifecycle_of key w = lifecycle_or_new (lookup key w.lifecycles)

  abbrev pub missing_at : Text → Option Text → Watcher S I → Watcher S I
  missing_at utcnow none w = w
  missing_at utcnow (some key) w =
      drop_client key
        record w { lifecycles = put key (mark_missing utcnow (lifecycle_of key w)) w.lifecycles }

  -- The body of the loop over the missing controllers, less the rows that it marks.
  unfoldable pub controller_missing : Text → Text → Watcher S I → Watcher S I
  controller_missing utcnow controller_id w =
      missing_at utcnow (lookup controller_id w.controller_keys) w

  abbrev device_at : Option Text → Watcher S I → Option (DiscoveredDevice I)
  device_at none w = none
  device_at (some key) w = lookup key w.devices

  abbrev pub previous_device : Option Text → Text → Watcher S I → Option (DiscoveredDevice I)
  previous_device previous_key key w =
      first_device (device_at previous_key w) (lookup key w.devices)

  -- The pops of everything that stands under the key that the controller left.
  abbrev pub leave : Text → Watcher S I → Watcher S I
  leave previous_key w = record (drop_client previous_key w) {
    lifecycles = remove previous_key w.lifecycles;
    profiles = remove previous_key w.profiles;
    intelligence = remove previous_key w.intelligence;
    traffic = remove previous_key w.traffic;
    devices = remove previous_key w.devices;
    device_ids = remove previous_key w.device_ids;
    controller_ids = remove previous_key w.controller_ids;
  }

  abbrev pub left : Option Text → Text → Watcher S I → Watcher S I
  left none key w = w
  left (some previous_key) key w =
      if not (text_eq previous_key key) then leave previous_key w else w

  -- if endpoint_moved and previous_key == key
  abbrev pub reopened : Bool → Text → Watcher S I → Watcher S I
  reopened true key w = record (drop_client key w) { traffic = remove key w.traffic }
  reopened false key w = w

  abbrev carried : Option Text → Text → Watcher S I → DeviceLifecycle
  carried none key w = lifecycle_of key w
  carried (some previous_key) key w = lifecycle_of previous_key w

  -- What stands under the key once the device is bound to it.
  abbrev pub bound : Text → Candidate I → DeviceLifecycle → Bool → Watcher S I → Watcher S I
  bound controller_id x lifecycle stale w = record w {
    lifecycles = put x.key lifecycle w.lifecycles;
    profiles = forgotten stale x.key w.profiles;
    intelligence = learnt x.device.intelligence x.key w.intelligence;
    devices = put x.key x.device w.devices;
    device_ids = put x.key x.device_id w.device_ids;
    controller_ids = put x.key controller_id w.controller_ids;
    controller_keys = put controller_id x.key w.controller_keys;
    canonical_device_ids = put controller_id x.device_id w.canonical_device_ids;
  }

  -- The body of the loop over the selected endpoints.
  unfoldable pub bind_controller : Text → Text × Candidate I → Watcher S I → Watcher S I
  bind_controller utcnow (controller_id, x) w =
      let previous_key = lookup controller_id w.controller_keys in
      let previous = previous_device previous_key x.key w in
      let moved = has_moved previous_key x.key || differs previous x.device.endpoint in
      let stale = moved || profile_changed previous x.device.profile in
      let lifecycle = mark_discovered moved utcnow (carried previous_key x.key w) in
      bound controller_id x lifecycle stale
        (reopened (moved && is_key previous_key x.key) x.key (left previous_key x.key w))

  abbrev pub bind_all : Text → List (Text × Candidate I) → Watcher S I → Watcher S I
  bind_all utcnow [] w = w
  bind_all utcnow (s ∷ selected) w = bind_all utcnow selected (bind_controller utcnow s w)

  abbrev pub all_missing : Text → List Text → Watcher S I → Watcher S I
  all_missing utcnow [] w = w
  all_missing utcnow (c ∷ cs) w = all_missing utcnow cs (controller_missing utcnow c w)

  -- _refresh_devices, after the discovery and the choice of the endpoints.
  unfoldable pub rebind : Text → List (Text × Candidate I) → Watcher S I → Watcher S I
  unfolding bind_controller controller_missing
  rebind utcnow selected w =
      record (bind_all utcnow selected
        (all_missing utcnow (absent_from selected w.present_controller_ids) w)) {
          present_controller_ids = map (λ s. s.0) selected;
          present_keys = map (λ s. Candidate.key (s.1)) selected;
        }

  -- The test of _poll_all for a present key.
  unfoldable pub is_polled : ℕ → Text → Watcher S I → Bool
  is_polled now key w =
      is_some (lookup key w.devices)
      && is_some (lookup key w.controller_ids)
      && can_poll now (lifecycle_of key w)
