-- ===== src/Runtime/Watcher/Tests.antt =====
-- Two controllers on two serial lines, and a device that answers each read.
use morningstar_modbus_api.Prelude.{
  ℕ, zero, suc, ◌+◌, ◌≡◌, refl, subst, true, false, none, some, List, [], ◌∷◌, ◌⊎◌, All, arith,
  length,
}
use morningstar_modbus_api.Prelude.Text.{Text, text}
use morningstar_modbus_api.Prelude.Maps.{lookup}
use morningstar_modbus_api.Prelude.Int.{pos}
use morningstar_modbus_api.Prelude.Floats.{Floats, integers}
use morningstar_modbus_api.Errors.{ok, err, ok-injective, timeout_error}
use morningstar_modbus_api.Catalog.Types.{RegisterBlock, DeviceProfileSpec}
use morningstar_modbus_api.Catalog.Compatibility.{absent, effective_items, in_range, version_tuple}
use morningstar_modbus_api.Catalog.Scaling.{decimal, decimal_digits}
use morningstar_modbus_api.Catalog.Decode.{RegisterFloats}
use morningstar_modbus_api.Catalog.Decode.Accepts.{ReadsNumerals}
use morningstar_modbus_api.Catalog.Decode.Needs.{Returns}
use morningstar_modbus_api.Catalog.Families.TristarPwm.{tristar_pwm}
use morningstar_modbus_api.Catalog.Profile.{poll, load_metadata}
use morningstar_modbus_api.Catalog.Profile.Loads.{ReadsBlock}
use morningstar_modbus_api.Controllers.Lifecycle.{int, mark_connecting, mark_success}
use morningstar_modbus_api.Runtime.Endpoints.{
  serial, Endpoint, Candidate, choose, has_key, stable_key, locator,
}
use morningstar_modbus_api.Runtime.Endpoints.Choice.{IsOne, IsFree, IsLeast, choose_lem}
use morningstar_modbus_api.Runtime.Watcher.{Watcher, lifecycle_of, bind_all, is_polled, rebind}
use morningstar_modbus_api.Runtime.Watcher.Refresh.{IsBound, rebind-IsBound, bind_all_loses}
use morningstar_modbus_api.Runtime.Watcher.Polls.{run_profile, Services, Config, Clocks, poll_one}
use morningstar_modbus_api.Runtime.Watcher.Polls.Isolation.{Untouched, poll_one-Untouched}
use morningstar_modbus_api.Runtime.Watcher.Polls.Outcomes.{Fails, poll_one-Fails}
use morningstar_modbus_api.Runtime.Watcher.Polls.Online.{Succeeds, poll_one-Succeeds}
use morningstar_modbus_api.Runtime.Cycle.{tasks, poll_all}
use morningstar_modbus_api.Runtime.Cycle.Tasks.{HasTask, rebind-HasTask}
use morningstar_modbus_api.Runtime.Cycle.Returns.{poll_all-Returns}
use morningstar_modbus_api.Transports.Client.{ReadOnlyModbusClient, AnswersInFull}

abbrev line : Text → Endpoint
line target = record {
  transport = serial;
  target = target;
  unit_id = 1;
  port = none;
  baudrate = none;
  stop_bits = none;
  usb_serial = none;
  usb_vid = none;
  usb_pid = none;
}

-- The intelligence of a device is a revision number.
abbrev found_at : Text → Candidate ℕ
found_at target = record {
  device_id = target;
  key = stable_key (line target);
  device = record { endpoint = line target; profile = text "tristar_pwm"; intelligence = none };
}

abbrev first_line : Candidate ℕ
first_line = record (found_at (text "/dev/ttyUSB0")) { key = text "usb0" }

abbrev second_line : Candidate ℕ
second_line = record (found_at (text "/dev/ttyUSB1")) { key = text "usb1" }

key_of_line : Candidate.key (found_at (text "COM3")) ≡ text "serial:COM3:unit:1"
unfolding stable_key locator decimal decimal_digits
key_of_line = refl

abbrev idle : {S : Type 0} → Watcher S ℕ
idle = record {
  devices = [];
  device_ids = [];
  controller_ids = [];
  controller_keys = [];
  canonical_device_ids = [];
  clients = [];
  profiles = (text "usb0", record { spec = tristar_pwm; metadata = []; cached_blocks = [] }) ∷ [];
  intelligence = [];
  lifecycles = [];
  traffic = [];
  present_keys = [];
  present_controller_ids = [];
  history_running = [];
  history_attempted_controllers = [];
  limiter = record { interval = 60; last_write = [] };
  closed = [];
  writes = [];
}

abbrev selected : List (Text × Candidate ℕ)
selected = (text "a", first_line) ∷ (text "b", second_line) ∷ []

rebind-IsBound_example :
    All (λ s. IsBound 7 (s.0) (s.1) (rebind (text "t") selected (idle {S = ℕ}))) selected
rebind-IsBound_example =
    rebind-IsBound (text "t") 7 selected idle (((refl, refl, refl), tt), (tt, tt))

-- Both controllers at their lines.
abbrev settled : Watcher ℕ ℕ
settled = rebind (text "t") selected idle

-- The lines are exchanged.
bind_all_loses_example :
    let w' = bind_all (text "u") ((text "a", second_line) ∷ (text "b", first_line) ∷ []) settled in
    (lookup (text "a") w'.controller_keys ≡ some (text "usb1"))
    × (is_polled 9 (text "usb1") w' ≡ false)
unfolding rebind
bind_all_loses_example =
    bind_all_loses (text "u") 9 (text "a") (text "b") second_line first_line settled refl refl refl

choose_lem_example :
    IsOne first_line (second_line ∷ first_line ∷ [])
    × ((has_key none (text "usb0") ≡ true)
        ⊎ (IsFree none (second_line ∷ first_line ∷ [])
            × IsLeast first_line (second_line ∷ first_line ∷ [])))
unfolding choose
choose_lem_example = choose_lem none (second_line ∷ first_line ∷ []) first_line refl

abbrev addresses : ℕ → ℕ → List ℕ
addresses from zero = []
addresses from (suc count) = from ∷ addresses (from + 1) count

length-addresses : (from count : ℕ) → length (addresses from count) ≡ count
length-addresses from zero = refl
length-addresses from (suc count) = omega (arith, length-addresses (from + 1) count)

abbrev answering : ReadOnlyModbusClient
answering = record { State = ℕ; read = λ f address count n. (ok (addresses address count), n + 1) }

abbrev silent : ReadOnlyModbusClient
silent = record { State = ℕ; read = λ f address count n. (err timeout_error, n + 1) }

answering-AnswersInFull : AnswersInFull answering
answering-AnswersInFull f address count s words h =
    subst (λ ws. length ws ≡ count) (ok-injective (addresses address count) words h)
      (length-addresses address count)

reads_all : (blocks : List RegisterBlock) → All (ReadsBlock answering) blocks
reads_all [] = tt
reads_all (b ∷ blocks) = (λ m s. (addresses b.address b.count, refl), reads_all blocks)

abbrev registers : RegisterFloats integers
registers = record {
  float16 = pos;
  unpack_float32 = λ high low. pos high;
  parse = λ s. ok (pos 10);
  of_ℤ = λ z. z;
}

numerals : ReadsNumerals integers registers
numerals s h = (pos 10, refl, refl)

abbrev services : Services integers answering ℕ
services = record {
  show = λ x. [];
  show_error = λ e. text "error";
  firmware = λ n. absent;
  refresh_intelligence = λ n values e. ok (n + 1);
  create_client = λ device. 0;
  reported = λ n. [];
  supports = λ device. false;
}

abbrev silent_services : Services integers silent ℕ
silent_services = record {
  show = λ x. [];
  show_error = λ e. text "error";
  firmware = λ n. absent;
  refresh_intelligence = λ n values e. ok (n + 1);
  create_client = λ device. 0;
  reported = λ n. [];
  supports = λ device. false;
}

abbrev config : Config
config = record {
  policy = record { threshold = 3; initial_backoff = int 2; max_backoff = 60 };
  baudrate = 9600;
  stop_bits = 2;
  on_startup = true;
  on_reconnect = true;
}

abbrev clocks : Clocks (Floats.Real integers)
clocks = record { utcnow = text "t"; monotonic = 100; latency_ms = pos 20 }

poll_one-Untouched_example :
    Untouched
      (text "usb1")
      settled
      (poll_one integers registers answering ℕ services config
        (text "usb0")
        first_line.device
        (pos 5)
        clocks
        settled).1
poll_one-Untouched_example =
    poll_one-Untouched integers registers answering ℕ services config (text "usb1") (text "usb0")
      refl first_line.device (pos 5) clocks settled

poll_one-Fails_example :
    (client : ℕ) × (lookup
        (text "usb0")
        (run_profile integers registers silent ℕ silent_services config
          (text "usb0")
          first_line.device
          settled).1.clients
      ≡ some client)
    × Fails integers registers silent ℕ silent_services config
        (text "usb0")
        timeout_error
        (mark_connecting (lifecycle_of (text "usb0") settled))
        client
        settled.closed
        clocks
        (poll_one integers registers silent ℕ silent_services config
          (text "usb0")
          first_line.device
          (pos 5)
          clocks
          settled)
unfolding rebind poll load_metadata effective_items in_range version_tuple
poll_one-Fails_example =
    poll_one-Fails integers registers silent ℕ silent_services config (text "usb0") 2 refl
      first_line.device (pos 5) clocks settled (text "/dev/ttyUSB0") (text "a") timeout_error refl
      refl refl

poll_one-Succeeds_example :
    Succeeds integers registers answering ℕ services config
      (text "usb0")
      (mark_success (text "t") (mark_connecting (lifecycle_of (text "usb0") settled)))
      (poll_one integers registers answering ℕ services config
        (text "usb0")
        first_line.device
        (pos 5)
        clocks
        settled)
unfolding rebind
poll_one-Succeeds_example =
    poll_one-Succeeds integers registers answering ℕ services config (text "usb0")
      answering-AnswersInFull numerals first_line.device (pos 5) clocks settled
      (text "/dev/ttyUSB0") (text "a") refl refl refl refl
      (reads_all (DeviceProfileSpec.blocks tristar_pwm)) tt (λ values. (none, refl))

rebind-HasTask_example :
    let w' = rebind (text "t") selected (idle {S = ℕ}) in
    All (λ s. HasTask s (tasks 7 w' w'.present_keys)) selected
rebind-HasTask_example =
    rebind-HasTask (text "t") 7 selected idle (((refl, refl, refl), tt), (tt, tt))

poll_all-Returns_example :
    Returns
      (poll_all integers registers silent ℕ silent_services config
        (pos 5)
        (pos 5)
        (λ key. clocks)
        100
        settled).0
poll_all-Returns_example =
    poll_all-Returns integers registers silent ℕ silent_services config (pos 5) 2 refl (pos 5)
      (λ key. clocks) 100 settled
