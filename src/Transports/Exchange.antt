-- ===== src/Transports/Exchange.antt =====
-- What the two clients share: the checks of a response PDU and the record of an exchange
-- (src/morningstar_modbus/transports/modbus.py, src/morningstar_modbus/domain/models.py).
use morningstar_modbus_api.Prelude.{
  ℕ, ◌/◌, ◌%◌, Bool, false, Option, some, List, [], ◌∷◌, ◌==◌, if◌then◌else◌,
}
use morningstar_modbus_api.Prelude.Text.{Text, hex}
use morningstar_modbus_api.Errors.{
  Error, Result, ok, err, protocol_error, device_error, empty_response, exception_truncated,
}
use morningstar_modbus_api.Protocol.Codec.{request_shape}

-- byte & 0x80
abbrev pub has_top_bit : ℕ → Bool
has_top_bit b = b / 128 % 2 == 1

-- AsyncModbusTcpClient._raise_if_exception
unfoldable pub raise_if_exception : List ℕ → Result (Unit {0})
raise_if_exception [] = err (protocol_error empty_response)
raise_if_exception (f ∷ []) =
    if has_top_bit f then err (protocol_error exception_truncated) else ok tt
raise_if_exception (f ∷ code ∷ rest) =
    if has_top_bit f then err (device_error (f % 128) code) else ok tt

-- response_pdu[0] == pdu[0]; neither is empty where it is asked.
abbrev pub same_function : List ℕ → List ℕ → Bool
same_function (f ∷ rest) (g ∷ pdu) = f == g
same_function _ _ = false

-- ModbusExchange, less the timestamp and the latency, which only the clocks decide.
pub record ModbusExchange : Type 0 where
  pub unit_id : ℕ
  pub function_code : ℕ
  pub shape : Option (ℕ × ℕ)
  pub request_hex : Text
  pub response_hex : Text
  pub request_pdu_hex : Text
  pub response_pdu_hex : Text
  pub error : Option Error

abbrev pub error_of {ℓ} : {A : Type ℓ} → Result A → Option Error
error_of (ok a) = Option.none
error_of (err e) = some e

abbrev pub function_of : List ℕ → ℕ
function_of [] = 0
function_of (f ∷ rest) = f

-- One try at an exchange: the locals of `_request` as they stand when it ends.
pub record Attempt : Type 0 where
  pub response : List ℕ
  pub response_pdu : List ℕ
  pub result : Result (List ℕ)

-- _observe
unfoldable pub observe : ℕ → List ℕ → List ℕ → Attempt → ModbusExchange
observe unit_id pdu request a = record {
  unit_id = unit_id;
  function_code = function_of pdu;
  shape = request_shape pdu;
  request_hex = hex request;
  response_hex = hex a.response;
  request_pdu_hex = hex pdu;
  response_pdu_hex = hex a.response_pdu;
  error = error_of a.result;
}
