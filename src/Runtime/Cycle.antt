-- ===== src/Runtime/Cycle.antt =====
-- One turn of the watcher's loop: the refresh of the devices with the calibration of the poll
-- interval, and the polls of all present controllers (_refresh_devices, _poll_interval_seconds,
-- _poll_all and run of src/morningstar_modbus/runtime/watcher.py). The tasks of a turn are run one
-- after another; a task that raises ends the turn.
pub mod Tasks
pub mod Returns
use morningstar_modbus_api.Prelude.{
  ℕ, Bool, true, false, not, Option, none, some, List, [], ◌∷◌, ◌&&◌, if◌then◌else◌, map,
}
use morningstar_modbus_api.Prelude.Text.{Text, text_eq}
use morningstar_modbus_api.Prelude.Maps.{lookup, put}
use morningstar_modbus_api.Prelude.Floats.{Floats}
use morningstar_modbus_api.Errors.{Result, ok, err}
use morningstar_modbus_api.Catalog.Decode.{RegisterFloats}
use morningstar_modbus_api.Controllers.Lifecycle.{can_poll}
use morningstar_modbus_api.Intelligence.Resolver.{sorted_entries, sorted_names}
use morningstar_modbus_api.Polling.AutoPoll.{
  AutoPollIntervalController, current_interval_seconds, observe, reset,
}
use morningstar_modbus_api.Polling.AutoPoll
use morningstar_modbus_api.Runtime.Endpoints.{
  DiscoveredDevice, Candidate, select_controller_endpoints, transport_name,
}
use morningstar_modbus_api.Runtime.Watcher.{Watcher, lifecycle_of, rebind, is_polled}
use morningstar_modbus_api.Runtime.Watcher.Polls.{Services, Config, Clocks, Sample, State, poll_one}
use morningstar_modbus_api.Transports.Client.{ReadOnlyModbusClient}

-- The key, the profile and the transport of each selected controller, in the order of their ids.
abbrev pub Signature : Type 0
Signature = List (Text × (Text × Text × Text))

abbrev pub same_signature : Signature → Signature → Bool
same_signature [] [] = true
same_signature [] (t ∷ ts) = false
same_signature (s ∷ ss) [] = false
same_signature ((c, (k, p, t)) ∷ ss) ((d, (l, q, u)) ∷ ts) =
    text_eq c d && text_eq k l && text_eq p q && text_eq t u && same_signature ss ts

abbrev pub signature_of : {I : Type 0} → List (Text × Candidate I) → Signature
signature_of selected = sorted_entries (
    map
      (λ s.
        let x = s.1 in (s.0, (x.key, x.device.profile, transport_name x.device.endpoint.transport)))
      selected)

-- A task of _poll_all: the controller, its key and its device.
pub record Task (I : Type 0) : Type 0 where
  pub controller : Text
  pub key : Text
  pub device : DiscoveredDevice I

abbrev pub task_of :
    {I : Type 0}
    → Bool
    → Text
    → Option (DiscoveredDevice I)
    → Option Text
    → List (Task I)
    → List (Task I)
task_of true key (some device) (some controller) rest =
    record { controller = controller; key = key; device = device } ∷ rest
task_of _ key device controller rest = rest

module _ {S I : Type 0} where
  -- The tasks that are created for the present keys.
  unfoldable pub tasks : ℕ → Watcher S I → List Text → List (Task I)
  tasks now w [] = []
  tasks now w (key ∷ keys) =
      task_of (can_poll now (lifecycle_of key w)) key (lookup key w.devices)
        (lookup key w.controller_ids) (tasks now w keys)

module _ (F : Floats) (R : RegisterFloats F) (C : ReadOnlyModbusClient) (I : Type 0)
    (V : Services F C I) (config : Config) (configured_interval : F.Real) where
  pub record Service : Type 0 where
    pub watcher : Watcher C.State I
    pub auto_poll : Option (AutoPollIntervalController F)
    pub auto_signature : Option Signature

  abbrev recalibrated :
      Option Signature
      → Signature
      → Option (AutoPollIntervalController F)
      → Option (AutoPollIntervalController F)
  recalibrated none signature auto = auto
  recalibrated (some before) signature none = none
  recalibrated (some before) signature (some c) =
      if same_signature signature before then some c else some (reset F c)

  -- _refresh_devices, with the controllers that the inventory resolved
  unfoldable pub refresh_devices : Text → List (Text × Candidate I) → Service → Service
  unfolding rebind select_controller_endpoints reset
  refresh_devices utcnow resolved s =
      let selected = select_controller_endpoints (Watcher.controller_keys s.watcher) resolved in
      let signature = signature_of selected in
      record {
        watcher = rebind utcnow selected s.watcher;
        auto_poll = recalibrated s.auto_signature signature s.auto_poll;
        auto_signature = some signature;
      }

  abbrev interval_of : Option (AutoPollIntervalController F) → Result F.Real
  interval_of none = ok configured_interval
  interval_of (some c) = current_interval_seconds F c

  -- _poll_interval_seconds, where "auto" has its controller
  unfoldable pub poll_interval_seconds : Service → Result F.Real
  unfolding current_interval_seconds
  poll_interval_seconds s = interval_of s.auto_poll

  abbrev pub Samples : Type 0
  Samples = List (Text × Sample F R C I V config)

  abbrev pub with_sample : Text → Option (Sample F R C I V config) → Samples → Samples
  with_sample controller none results = results
  with_sample controller (some sample) results = put controller sample results

  -- The tasks after one that raised are not waited for.
  abbrev pub after_task :
      (Samples → State F R C I V config → Result Samples × State F R C I V config)
      → Text
      → Samples
      → Result (Option (Sample F R C I V config)) × State F R C I V config
      → Result Samples × State F R C I V config
  after_task later controller results (ok sample, w) =
      later (with_sample controller sample results) w
  after_task later controller results (err e, w) = (err e, w)

  abbrev pub run_tasks :
      F.Real
      → (Text → Clocks F.Real)
      → List (Task I)
      → Samples
      → State F R C I V config
      → Result Samples × State F R C I V config
  run_tasks interval clocks [] results w = (ok results, w)
  run_tasks interval clocks (t ∷ later) results w =
      after_task (λ r w'. run_tasks interval clocks later r w') t.controller results
        (poll_one F R C I V config t.key t.device interval (clocks t.key) w)

  -- _poll_all
  unfoldable pub poll_all :
      F.Real
      → (Text → Clocks F.Real)
      → ℕ
      → State F R C I V config
      → Result Samples × State F R C I V config
  unfolding tasks poll_one
  poll_all interval clocks now w = run_tasks interval clocks (tasks now w w.present_keys) [] w

  abbrev pub observed :
      Samples
      → List Text
      → Option (AutoPollIntervalController F)
      → Result (Option (AutoPollIntervalController F))
  observed samples ids none = ok none
  observed samples ids (some c) = elim (AutoPoll.observe F samples (sorted_names ids) c) [
    | ok (c', message) ↦ ok (some c')
    | err e ↦ err e
  ]

  abbrev calibrated :
      Result (Option (AutoPollIntervalController F)) → Service → Result (Unit {0}) × Service
  calibrated (err e) s = (err e, s)
  calibrated (ok auto) s = (ok tt, record s { auto_poll = auto })

  abbrev polled : Result Samples × State F R C I V config → Service → Result (Unit {0}) × Service
  polled (err e, w) s = (err e, record s { watcher = w })
  polled (ok samples, w) s =
      calibrated (observed samples w.present_controller_ids s.auto_poll) (record s { watcher = w })

  abbrev polled_at :
      Result F.Real → (Text → Clocks F.Real) → ℕ → Service → Result (Unit {0}) × Service
  polled_at (err e) clocks now s = (err e, s)
  polled_at (ok interval) clocks now s = polled (poll_all interval clocks now s.watcher) s

  -- A turn of the loop of run, between the refresh and the sleep.
  unfoldable pub poll_turn : (Text → Clocks F.Real) → ℕ → Service → Result (Unit {0}) × Service
  unfolding poll_interval_seconds poll_all observe
  poll_turn clocks now s = polled_at (poll_interval_seconds s) clocks now s
