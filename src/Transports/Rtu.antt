-- ===== src/Transports/Rtu.antt =====
-- AsyncModbusRtuClient of src/morningstar_modbus/transports/modbus.py. One worker thread makes the
-- exchanges of a client one after the other. The serial port is a parameter: what it yields in one
-- exchange, after the stale input has been dropped, is a stream, or opening or writing raises.
pub mod Accepted
pub mod Reads
pub mod Noise
pub mod PortState
mod Tests
use morningstar_modbus_api.Prelude.{
  ℕ, zero, suc, ◌+◌, ◌-◌, ◌%◌, Bool, true, false, not, ◌&&◌, ◌||◌, List, [], ◌∷◌, ◌++◌, ltb, leb,
  ◌==◌, if◌then◌else◌, length, take, drop,
}
use morningstar_modbus_api.Prelude.Int.{ℤ, pos_part}
use morningstar_modbus_api.Protocol.Codec.{read_registers_pdu, parse_register_response}
use morningstar_modbus_api.Errors.{
  Error, Result, ok, err, value_error, protocol_error, device_error, timeout_error, os_error,
  runtime_error, rtu_crc, unexpected_unit, rtu_identification_header, rtu_function,
  function_mismatch, unit_id_range, stop_bits_range, ◌>>◌, raise_if,
}
use morningstar_modbus_api.Protocol.Crc.{append_crc, valid_crc}
use morningstar_modbus_api.Transports.Stream.{Stream, Reader, read_exactly}
use morningstar_modbus_api.Transports.Exchange.{
  has_top_bit, same_function, ModbusExchange, Attempt, observe,
}

-- Readers in sequence.
infixl 5 ◌>>=◌
abbrev pub ◌>>=◌ : {A B : Type 0} → Reader A → (A → Reader B) → Reader B
◌>>=◌ m f s = elim (m s) [ ok (a, s') ↦ f a s' | err e ↦ err e ]

abbrev pub pure : {A : Type 0} → A → Reader A
pure a s = ok (a, s)

abbrev pub raise : {A : Type 0} → Error → Reader A
raise e s = err e

-- header[1], of two bytes
abbrev pub second : List ℕ → ℕ
second (a ∷ b ∷ rest) = b
second _ = 0

abbrev pub first : List ℕ → ℕ
first (a ∷ rest) = a
first [] = 0

-- for _ in range(n): a header of two bytes, then as many bytes as its second one says
unfoldable pub read_object_bytes : ℕ → Reader (List ℕ)
read_object_bytes zero = pure []
read_object_bytes (suc n) =
    let later = read_object_bytes n in
    do
      header ← read_exactly 2
      value ← read_exactly (second header)
      rest ← later
      pure (header ++ (value ++ rest))

abbrev pub exception_tail : List ℕ → List ℕ → Reader (List ℕ)
exception_tail prefix tail =
    if valid_crc (prefix ++ tail)
    then raise (device_error (second prefix % 128) (first tail))
    else raise (protocol_error rtu_crc)

-- The frame of an exception response, which never returns.
abbrev pub exception_frame : List ℕ → Reader (List ℕ)
exception_frame prefix = do tail ← read_exactly 3; exception_tail prefix tail

abbrev pub register_frame : List ℕ → Reader (List ℕ)
register_frame prefix = do
  byte_count ← read_exactly 1
  rest ← read_exactly (first byte_count + 2)
  pure (prefix ++ (byte_count ++ rest))

-- fixed[5]
abbrev pub object_count : List ℕ → ℕ
object_count (a ∷ b ∷ c ∷ d ∷ e ∷ n ∷ rest) = n
object_count _ = 0

abbrev pub objects_tail : List ℕ → List ℕ → Reader (List ℕ)
objects_tail prefix fixed = do
  objects ← read_object_bytes (object_count fixed)
  crc ← read_exactly 2
  pure (prefix ++ (fixed ++ (objects ++ crc)))

abbrev pub identification_fixed : List ℕ → List ℕ → Reader (List ℕ)
identification_fixed prefix fixed =
    if not (first fixed == 0x0E) || not (second fixed == 0x01)
    then raise (protocol_error rtu_identification_header)
    else objects_tail prefix fixed

abbrev pub identification_frame : List ℕ → Reader (List ℕ)
identification_frame prefix = do fixed ← read_exactly 6; identification_fixed prefix fixed

-- The branches on the function code.
abbrev pub function_frame : List ℕ → Reader (List ℕ)
function_frame prefix =
    if has_top_bit (second prefix)
    then exception_frame prefix
    else if second prefix == 0x03 || second prefix == 0x04
    then register_frame prefix
    else if second prefix == 0x2B
    then identification_frame prefix
    else raise (protocol_error rtu_function)

abbrev pub frame_after : ℕ → List ℕ → Reader (List ℕ)
frame_after unit_id prefix =
    if first prefix == unit_id
    then function_frame prefix
    else raise (protocol_error unexpected_unit)

unfoldable pub read_frame : ℕ → Reader (List ℕ)
unfolding read_object_bytes
read_frame unit_id = do prefix ← read_exactly 2; frame_after unit_id prefix

-- response[1:-2]
abbrev pub inner : List ℕ → List ℕ
inner frame = take (length frame - 3) (drop 1 frame)

-- What follows the branches.
unfoldable pub check_frame : List ℕ → List ℕ → Result (List ℕ × List ℕ)
check_frame pdu frame =
    if valid_crc frame
    then (if same_function (inner frame) pdu
        then ok (inner frame, frame)
        else err (protocol_error function_mismatch))
    else err (protocol_error rtu_crc)

abbrev pub checked : List ℕ → Result (List ℕ × Stream) → Result (List ℕ × List ℕ)
checked pdu (err e) = err e
checked pdu (ok (frame, rest)) = check_frame pdu frame

-- The body of the `try` once the frame is written, with the response PDU and the response.
unfoldable pub receive : ℕ → List ℕ → Stream → Result (List ℕ × List ℕ)
unfolding read_frame check_frame
receive unit_id pdu s = checked pdu (read_frame unit_id s)

pub record RtuClient : Type 0 where
  pub unit_id : ℕ
  -- `_serial is not None`
  pub serial_open : Bool
  -- `_closed`
  pub is_closed : Bool

-- __init__
unfoldable pub connect : ℕ → ℕ → Result RtuClient
connect unit_id stop_bits =
    raise_if (not (leb 1 unit_id && leb unit_id 247)) (value_error unit_id_range)
    >> (raise_if (not (stop_bits == 1 || stop_bits == 2)) (value_error stop_bits_range)
        >> ok (record { unit_id = unit_id; serial_open = false; is_closed = false }))

-- The serial port in one exchange: opening it, if that is needed, and then resetting its buffers
-- and writing the frame, after which it yields a stream.
pub record Port : Type 0 where
  pub opening : Result (Unit {0})
  pub writing : Result Stream

-- except (OSError, TimeoutError); TimeoutError is one of OSError's subclasses
abbrev pub closes : Error → Bool
closes timeout_error = true
closes os_error = true
closes _ = false

abbrev pub settle : RtuClient → Result (List ℕ × List ℕ) → RtuClient × Result (List ℕ × List ℕ)
settle c (ok r) = (c, ok r)
settle c (err e) = (if closes e then record c { serial_open = false } else c, err e)

abbrev pub on_stream : ℕ → List ℕ → Result Stream → Result (List ℕ × List ℕ)
on_stream unit_id pdu (err e) = err e
on_stream unit_id pdu (ok s) = receive unit_id pdu s

abbrev pub ensure_open : Result (Unit {0}) → RtuClient → Result RtuClient
ensure_open opening c =
    if c.serial_open
    then ok c
    else elim opening [ ok _ ↦ ok (record c { serial_open = true }) | err e ↦ err e ]

abbrev pub exchange_open :
    List ℕ → Result Stream → RtuClient → Result RtuClient → RtuClient × Result (List ℕ × List ℕ)
exchange_open pdu writing c (err e) = (c, err e)
exchange_open pdu writing c (ok opened) = settle opened (on_stream opened.unit_id pdu writing)

-- _exchange_blocking
unfoldable pub exchange_blocking : List ℕ → Port → RtuClient → RtuClient × Result (List ℕ × List ℕ)
exchange_blocking pdu port c = exchange_open pdu port.writing c (ensure_open port.opening c)

abbrev pub attempt_of : Result (List ℕ × List ℕ) → Attempt
attempt_of (ok (response_pdu, response)) = record {
  response = response;
  response_pdu = response_pdu;
  result = ok response_pdu;
}
attempt_of (err e) = record { response = []; response_pdu = []; result = err e }

pub record Request : Type 0 where
  pub client : RtuClient
  pub sent : List ℕ
  pub exchange : ModbusExchange
  pub result : Result (List ℕ)

abbrev pub request_frame : RtuClient → List ℕ → List ℕ
request_frame c pdu = append_crc (c.unit_id ∷ pdu)

-- The `finally` of _request.
abbrev pub observed : List ℕ → RtuClient → RtuClient × Result (List ℕ × List ℕ) → Request
observed pdu c (c', r) =
    let attempt = attempt_of r in
    let sent = request_frame c pdu in
    record {
      client = c';
      sent = sent;
      exchange = observe c.unit_id pdu sent attempt;
      result = attempt.result;
    }

-- _request; a closed client raises before anything is sent or observed.
unfoldable pub request : List ℕ → Port → RtuClient → Result Request
unfolding observe
request pdu port c =
    if c.is_closed then err runtime_error else ok (observed pdu c (exchange_blocking pdu port c))

-- close(), with _close_blocking
unfoldable pub close : RtuClient → RtuClient
close c = if c.is_closed then c else record c { is_closed = true; serial_open = false }

abbrev pub words_of : ℕ → ℕ → Result (List ℕ) → Result (List ℕ)
words_of function_code count (err e) = err e
words_of function_code count (ok response) = parse_register_response response function_code count

abbrev pub words_of_request : ℕ → ℕ → RtuClient → Result Request → RtuClient × Result (List ℕ)
words_of_request function_code count c (err e) = (c, err e)
words_of_request function_code count c (ok r) = (r.client, words_of function_code count r.result)

abbrev pub read_pdu : ℕ → ℕ → Port → RtuClient → Result (List ℕ) → RtuClient × Result (List ℕ)
read_pdu function_code count port c (err e) = (c, err e)
read_pdu function_code count port c (ok pdu) =
    words_of_request function_code count c (request pdu port c)

-- read_holding_registers and read_input_registers, for function codes 3 and 4
unfoldable pub read_registers : ℕ → ℤ → ℤ → Port → RtuClient → RtuClient × Result (List ℕ)
read_registers function_code address count port c =
    read_pdu function_code (pos_part count) port c (read_registers_pdu function_code address count)
