-- ===== src/Polling/Samples.antt =====
-- The traffic of one profile poll and the sample made of it
-- (PollTrafficTracker and PollPerformanceSample of src/morningstar_modbus/polling/service.py).
use morningstar_modbus_api.Prelude.{
  ℕ, zero, suc, ◌+◌, ◌-◌, ◌*◌, ◌/◌, Bool, Option, none, some, List, [], ◌∷◌, ◌++◌, ◌==◌, ◌||◌,
  length, take, if◌then◌else◌,
}
use mathlib.Core.Option
use morningstar_modbus_api.Errors.{Error}
use morningstar_modbus_api.Prelude.Text.{Text, text, text_eq}
use morningstar_modbus_api.Prelude.Floats.{Floats}
use morningstar_modbus_api.Transports.Exchange.{ModbusExchange}

-- _frame_size
unfoldable pub frame_size : Text → ℕ
frame_size hex_payload = length hex_payload / 2

abbrev pub sum_of {ℓ} : {A : Type ℓ} → (A → ℕ) → List A → ℕ
sum_of f [] = 0
sum_of f (x ∷ xs) = f x + sum_of f xs

-- Not the timestamp, which only the clock decides.
pub record PollPerformanceSample (R : Type 0) : Type 0 where
  pub transport : Text
  pub configured_interval_seconds : R
  pub poll_latency_ms : R
  pub request_count : ℕ
  pub successful_requests : ℕ
  pub failed_requests : ℕ
  pub request_bytes : ℕ
  pub response_bytes : ℕ
  pub estimated_wire_time_ms : Option R
  pub bus_utilization_percent : Option R
  pub deadline_missed : Bool
  pub success : Bool
  pub error : Text

pub record PollTrafficTracker : Type 0 where
  pub transport : Text
  pub baudrate : Option ℕ
  pub stop_bits : ℕ
  pub exchanges : List ModbusExchange

abbrev pub new_tracker : Text → Option ℕ → ℕ → PollTrafficTracker
new_tracker transport baudrate stop_bits = record {
  transport = transport;
  baudrate = baudrate;
  stop_bits = stop_bits;
  exchanges = [];
}

unfoldable pub begin : PollTrafficTracker → PollTrafficTracker
begin t = record t { exchanges = [] }

unfoldable pub record_exchange : ModbusExchange → PollTrafficTracker → PollTrafficTracker
record_exchange exchange t = record t { exchanges = t.exchanges ++ exchange ∷ [] }

-- `not item.error_type`
abbrev pub succeeded : Option Error → ℕ
succeeded none = 1
succeeded (some e) = 0

-- `self.transport == "serial" and self.baudrate`
abbrev wire_baudrate : Text → Option ℕ → Option ℕ
wire_baudrate transport none = none
wire_baudrate transport (some zero) = none
wire_baudrate transport (some (suc b)) =
    if text_eq transport (text "serial") then some (suc b) else none

module _ (F : Floats) where
  -- The start bit, eight data bits and the stop bits; 3.5 characters of silence each way.
  unfoldable pub estimate_rtu_wire_time_ms : ℕ → ℕ → ℕ → ℕ → ℕ → F.Real
  estimate_rtu_wire_time_ms request_bytes response_bytes request_count baudrate stop_bits =
      let bits_per_character = 1 + 8 + stop_bits in
      let frame_bits = (request_bytes + response_bytes) * bits_per_character in
      let silent_gap_bits =
        F.multiply (F.multiply (F.of_ℕ request_count) (F.of_ℕ 7)) (F.of_ℕ bits_per_character) in
      if baudrate == 0 || request_count == 0
      then F.of_ℕ 0
      else F.multiply (F.divide (F.add (F.of_ℕ frame_bits) silent_gap_bits) (F.of_ℕ baudrate))
          (F.of_ℕ 1000)

  abbrev utilization : F.Real → Option F.Real → Option F.Real
  utilization interval none = none
  utilization interval (some wire_time) =
      if F.less (F.of_ℕ 0) interval
      then some (F.multiply (F.divide wire_time (F.multiply interval (F.of_ℕ 1000))) (F.of_ℕ 100))
      else none

  unfoldable pub finish :
      F.Real → F.Real → Bool → Text → PollTrafficTracker → PollPerformanceSample F.Real
  unfolding frame_size estimate_rtu_wire_time_ms
  finish interval latency succeeded_poll error t =
      let request_bytes = sum_of (λ e. frame_size (ModbusExchange.request_hex e)) t.exchanges in
      let response_bytes = sum_of (λ e. frame_size (ModbusExchange.response_hex e)) t.exchanges in
      let successful = sum_of (λ e. succeeded (ModbusExchange.error e)) t.exchanges in
      let count = length t.exchanges in
      let wire_time =
        Option.map (λ b. estimate_rtu_wire_time_ms request_bytes response_bytes count b t.stop_bits)
          (wire_baudrate t.transport t.baudrate) in
      record {
        transport = t.transport;
        configured_interval_seconds = interval;
        poll_latency_ms = latency;
        request_count = count;
        successful_requests = successful;
        failed_requests = count - successful;
        request_bytes = request_bytes;
        response_bytes = response_bytes;
        estimated_wire_time_ms = wire_time;
        bus_utilization_percent = utilization interval wire_time;
        deadline_missed = F.less (F.multiply interval (F.of_ℕ 1000)) latency;
        success = succeeded_poll;
        error = take 1000 error;
      }
