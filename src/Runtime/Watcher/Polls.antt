-- ===== src/Runtime/Watcher/Polls.antt =====
-- One poll of a controller and one cycle of polls: _poll_one, _poll_all and their helpers of
-- src/morningstar_modbus/runtime/watcher.py. The tasks of a cycle are run one after another.
pub mod Isolation
pub mod Outcomes
pub mod Online
use morningstar_modbus_api.Prelude.{
  ℕ, Bool, true, false, not, Option, none, some, List, [], ◌∷◌, ◌&&◌, ◌||◌, ◌==◌, any,
  if◌then◌else◌,
}
use morningstar_modbus_api.Prelude.Text.{Text, text_eq}
use morningstar_modbus_api.Prelude.Maps.{lookup, put}
use morningstar_modbus_api.Prelude.Floats.{Floats}
use morningstar_modbus_api.Errors.{Error, Result, ok, err}
use morningstar_modbus_api.Catalog.Compatibility.{Firmware, written}
use morningstar_modbus_api.Catalog.Decode.{RegisterFloats}
use morningstar_modbus_api.Catalog.Derived.{RegisterValue}
use morningstar_modbus_api.Catalog.Types.{DeviceProfileSpec}
use morningstar_modbus_api.Catalog.Profile.{CatalogProfile, Profile, poll}
use morningstar_modbus_api.Catalog.Registry.{get_profile}
use morningstar_modbus_api.Controllers.Lifecycle.{
  DeviceLifecycle, Policy, is_empty, mark_connecting, mark_success, mark_failure,
}
use morningstar_modbus_api.Polling.Limiter.{PollPersistenceLimiter, should_persist}
use morningstar_modbus_api.Polling.Samples.{
  PollPerformanceSample, PollTrafficTracker, new_tracker, begin, record_exchange, finish,
}
use morningstar_modbus_api.Runtime.Endpoints.{
  TransportName, tcp, serial, Endpoint, DiscoveredDevice, or_else, transport_name,
}
use morningstar_modbus_api.Runtime.Watcher.{
  Watcher, KeptProfile, Write, saved_poll, saved_error, drop_client, lifecycle_of, is_polled,
}
use morningstar_modbus_api.Transports.Client.{ReadOnlyModbusClient}
use morningstar_modbus_api.Transports.Exchange.{ModbusExchange}

-- What the poll uses of other parts: the texts of floats and of exceptions, the intelligence of a
-- device, the constructor of a client, what a client told its observer in the poll that left it in a
-- state, and the devices whose history can be read.
pub record Services (F : Floats) (C : ReadOnlyModbusClient) (I : Type 0) : Type 0 where
  pub show : F.Real → Text
  pub show_error : Error → Text
  pub firmware : I → Firmware
  pub refresh_intelligence : I → List (RegisterValue F.Real) → Endpoint → Result I
  pub create_client : DiscoveredDevice I → C.State
  pub reported : C.State → List ModbusExchange
  pub supports : DiscoveredDevice I → Bool

pub record Config : Type 0 where
  pub policy : Policy
  pub baudrate : ℕ
  pub stop_bits : ℕ
  pub on_startup : Bool
  pub on_reconnect : Bool

-- What the clocks say in one poll.
pub record Clocks (Real : Type 0) : Type 0 where
  pub utcnow : Text
  pub monotonic : ℕ
  pub latency_ms : Real

abbrev or_new {ℓ} : {A : Type ℓ} → Option A → A → A
or_new none a = a
or_new (some b) a = b

abbrev pub serial_baudrate : TransportName → ℕ → Option ℕ
serial_baudrate tcp baudrate = none
serial_baudrate serial baudrate = some baudrate

abbrev pub record_all : List ModbusExchange → PollTrafficTracker → PollTrafficTracker
record_all [] t = t
record_all (e ∷ exchanges) t = record_all exchanges (record_exchange e t)

-- profile is None or profile.name != device.profile
abbrev pub profile_for : Option KeptProfile → Text → KeptProfile
profile_for none name = record { spec = get_profile name; metadata = []; cached_blocks = [] }
profile_for (some kept) name =
    if text_eq kept.spec.name name
    then kept
    else record { spec = get_profile name; metadata = []; cached_blocks = [] }

module _ (F : Floats) (R : RegisterFloats F) (C : ReadOnlyModbusClient) (I : Type 0)
    (V : Services F C I) (config : Config) where
  abbrev pub State : Type 0
  State = Watcher C.State I

  abbrev pub Sample : Type 0
  Sample = PollPerformanceSample F.Real

  -- _tracker
  abbrev pub tracker_for : Text → DiscoveredDevice I → State → PollTrafficTracker
  tracker_for key device w =
      let e = device.endpoint in
      or_new (lookup key w.traffic) (
        new_tracker (transport_name e.transport)
          (serial_baudrate e.transport (or_else e.baudrate config.baudrate))
          (or_else e.stop_bits config.stop_bits))

  -- _client
  abbrev pub client_for : Text → DiscoveredDevice I → State → C.State
  client_for key device w = or_new (lookup key w.clients) (V.create_client device)

  abbrev pub firmware_of : Option I → Firmware
  firmware_of none = written []
  firmware_of (some i) = V.firmware i

  -- The poll of the profile, with what it leaves of the client, the profile and the tracker.
  abbrev pub run_profile :
      Text → DiscoveredDevice I → State → Result (List (RegisterValue F.Real)) × State
  run_profile key device w =
      let kept = profile_for (lookup key w.profiles) device.profile in
      let (values, p) =
        poll F R C V.show kept.spec (firmware_of (lookup key w.intelligence)) record {
          metadata = kept.metadata;
          cached_blocks = kept.cached_blocks;
          client = client_for key device w;
        } in
      (
        values,
        record w {
          lifecycles = put key (mark_connecting (lifecycle_of key w)) w.lifecycles;
          clients = put key p.client w.clients;
          profiles =
              put key
                record { spec = kept.spec; metadata = p.metadata; cached_blocks = p.cached_blocks }
                w.profiles;
          traffic =
              put key (record_all (V.reported p.client) (begin (tracker_for key device w)))
                w.traffic;
        },
      )

  abbrev written_if : Bool → Write → List Write → List Write
  written_if true x writes = x ∷ writes
  written_if false x writes = writes

  -- if self._persistence_limiter.should_persist(controller_id): persist
  abbrev pub persist : Text → Write → Clocks F.Real → State → State
  persist controller_id x clocks w =
      let (limiter, due) = should_persist controller_id clocks.monotonic w.limiter in
      record w { limiter = limiter; writes = written_if due x w.writes }

  abbrev is_one_of : Text → List Text → Bool
  is_one_of c cs = any (text_eq c) cs

  -- _schedule_history_backfill
  unfoldable pub schedule_history_backfill : Text → DiscoveredDevice I → Bool → State → State
  schedule_history_backfill controller_id device reconnected w =
      let initial_sync = not (is_one_of controller_id w.history_attempted_controllers) in
      let should_sync =
        (initial_sync && config.on_startup) || (reconnected && config.on_reconnect) in
      if V.supports device && should_sync && not (is_one_of controller_id w.history_running)
      then record w {
        history_attempted_controllers = controller_id ∷ w.history_attempted_controllers;
        history_running = controller_id ∷ w.history_running;
      }
      else w

  abbrev pub finished :
      Text → Bool → Text → F.Real → Clocks F.Real → DiscoveredDevice I → State → Sample
  finished key success error interval clocks device w =
      finish F interval clocks.latency_ms success error (tracker_for key device w)

  -- The rest of the handler, if mark_failure returned.
  abbrev pub note_error :
      Text
      → Text
      → Text
      → Sample
      → Clocks F.Real
      → Result (Unit {0})
      → State
      → Result (Option Sample) × State
  note_error key device_id controller_id performance clocks (err e) w = (err e, w)
  note_error key device_id controller_id performance clocks (ok done) w = (
    ok (some performance),
    persist controller_id (saved_error device_id) clocks (drop_client key w),
  )

  -- except Exception as exc
  abbrev pub failed :
      Text
      → Text
      → Text
      → DiscoveredDevice I
      → F.Real
      → Clocks F.Real
      → Error
      → State
      → Result (Option Sample) × State
  failed key device_id controller_id device interval clocks raised w =
      let performance = finished key false (V.show_error raised) interval clocks device w in
      let (lifecycle, r) =
        mark_failure config.policy clocks.utcnow clocks.monotonic (lifecycle_of key w) in
      note_error key device_id controller_id performance clocks r
        record w { lifecycles = put key lifecycle w.lifecycles }

  -- refresh_intelligence(intelligence, values, ...) of what is known of the device
  abbrev pub refreshed : Option I → List (RegisterValue F.Real) → Endpoint → Result (Option I)
  refreshed none values endpoint = ok none
  refreshed (some i) values endpoint = elim (V.refresh_intelligence i values endpoint) [
    | ok i' ↦ ok (some i')
    | err e ↦ err e
  ]

  abbrev pub keep_intelligence : Text → Option I → State → State
  keep_intelligence key none w = w
  keep_intelligence key (some i) w = record w { intelligence = put key i w.intelligence }

  abbrev pub succeeded :
      Text
      → Text
      → Text
      → Bool
      → DiscoveredDevice I
      → F.Real
      → Clocks F.Real
      → Result (Option I)
      → State
      → Result (Option Sample) × State
  succeeded key device_id controller_id reconnected device interval clocks (err e) w =
      failed key device_id controller_id device interval clocks e w
  succeeded key device_id controller_id reconnected device interval clocks (ok intelligence) w = (
    ok (some (finished key true [] interval clocks device w)),
    schedule_history_backfill controller_id device reconnected (
        persist controller_id (saved_poll device_id) clocks (keep_intelligence key intelligence w)),
  )

  abbrev pub concluded :
      Text
      → Text
      → Text
      → Bool
      → DiscoveredDevice I
      → F.Real
      → Clocks F.Real
      → Result (List (RegisterValue F.Real)) × State
      → Result (Option Sample) × State
  concluded key device_id controller_id reconnected device interval clocks (err e, w) =
      failed key device_id controller_id device interval clocks e w
  concluded key device_id controller_id reconnected device interval clocks (ok values, w) =
      succeeded key device_id controller_id reconnected device interval clocks
        (refreshed (lookup key w.intelligence) values device.endpoint)
        record w {
          lifecycles = put key (mark_success clocks.utcnow (lifecycle_of key w)) w.lifecycles;
        }

  abbrev pub was_out : DeviceLifecycle → Bool
  was_out l = not (is_empty l.offline_since) || not (l.consecutive_failures == 0)

  abbrev pub identified :
      Text
      → Option Text
      → Option Text
      → DiscoveredDevice I
      → F.Real
      → Clocks F.Real
      → State
      → Result (Option Sample) × State
  identified key none controller_id device interval clocks w = (ok none, w)
  identified key (some device_id) none device interval clocks w = (ok none, w)
  identified key (some device_id) (some controller_id) device interval clocks w =
      concluded key device_id controller_id (was_out (lifecycle_of key w)) device interval clocks
        (run_profile key device w)

  -- _poll_one
  unfoldable pub poll_one :
      Text → DiscoveredDevice I → F.Real → Clocks F.Real → State → Result (Option Sample) × State
  unfolding poll finish should_persist mark_failure mark_success mark_connecting begin
      record_exchange schedule_history_backfill get_profile
  poll_one key device interval clocks w =
      identified key (lookup key w.device_ids) (lookup key w.controller_ids) device interval clocks
        w
