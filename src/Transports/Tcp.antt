-- ===== src/Transports/Tcp.antt =====
-- AsyncModbusTcpClient of src/morningstar_modbus/transports/modbus.py. The lock makes the requests
-- of one client follow one another, so a client is its transaction counter and a request is a
-- function of it. The connection is a parameter: it fails to open, or yields a stream.
pub mod Accepted
pub mod Reads
mod Tests
use morningstar_modbus_api.Prelude.{
  ℕ, ◌+◌, ◌-◌, ◌*◌, ◌%◌, Bool, not, ◌&&◌, ◌||◌, List, [], ◌∷◌, ◌++◌, ltb, leb, ◌==◌, length,
}
use morningstar_modbus_api.Prelude.Int.{ℤ, pos_part}
use morningstar_modbus_api.Errors.{
  Error, Result, ok, err, value_error, protocol_error, response_header, response_length,
  function_mismatch, unit_id_range, ◌>>=◌, ◌>>◌, raise_if,
}
use morningstar_modbus_api.Protocol.Codec.{
  DeviceIdentification, read_device_identification, pack_be16, read_registers_pdu,
  parse_register_response, parse_device_identification,
}
use morningstar_modbus_api.Transports.Stream.{Stream, read_exactly}
use morningstar_modbus_api.Transports.Exchange.{
  raise_if_exception, same_function, ModbusExchange, Attempt, observe,
}

pub record TcpClient : Type 0 where
  pub unit_id : ℕ
  pub transaction_id : ℕ

-- __init__
unfoldable pub connect : ℕ → Result TcpClient
connect unit_id = do
  raise_if (not (leb 1 unit_id && leb unit_id 247)) (value_error unit_id_range)
  ok (record { unit_id = unit_id; transaction_id = 0 })

-- struct.pack(">HHHB", ...)
abbrev pub mbap : ℕ → ℕ → ℕ → List ℕ
mbap transaction_id size unit_id =
    pack_be16 transaction_id ++ pack_be16 0 ++ pack_be16 size ++ unit_id ∷ []

-- The length field of a response header, when the header answers this request.
unfoldable pub check_header : ℕ → ℕ → List ℕ → Result ℕ
check_header transaction_id unit_id (t ∷ t' ∷ p ∷ p' ∷ l ∷ l' ∷ u ∷ []) = do
  raise_if (not (t * 256 + t' == transaction_id) || not (p * 256 + p' == 0) || not (u == unit_id))
      (protocol_error response_header)
  raise_if (ltb (l * 256 + l') 2) (protocol_error response_length)
  ok (l * 256 + l')
check_header transaction_id unit_id _ = err (protocol_error response_header)

unfoldable pub check_pdu : List ℕ → List ℕ → Result (List ℕ)
unfolding raise_if_exception
check_pdu pdu response_pdu = do
  raise_if_exception response_pdu
  raise_if (not (same_function response_pdu pdu)) (protocol_error function_mismatch)
  ok response_pdu

abbrev pub failed : Error → Attempt
failed e = record { response = []; response_pdu = []; result = err e }

-- From the response PDU on.
abbrev pub finish : List ℕ → List ℕ → Result (List ℕ × Stream) → Attempt
finish pdu header (err e) = failed e
finish pdu header (ok (body, rest)) = record {
  response = header ++ body;
  response_pdu = body;
  result = check_pdu pdu body;
}

abbrev pub read_body : List ℕ → List ℕ → Stream → Result ℕ → Attempt
read_body pdu header s (err e) = failed e
read_body pdu header s (ok size) = finish pdu header (read_exactly (size - 1) s)

abbrev pub read_header : ℕ → ℕ → List ℕ → Result (List ℕ × Stream) → Attempt
read_header transaction_id unit_id pdu (err e) = failed e
read_header transaction_id unit_id pdu (ok (header, s)) =
    read_body pdu header s (check_header transaction_id unit_id header)

-- The body of the `try`, on a connection that may not open.
unfoldable pub receive : ℕ → ℕ → List ℕ → Result Stream → Attempt
unfolding read_exactly check_header check_pdu
receive transaction_id unit_id pdu (err e) = failed e
receive transaction_id unit_id pdu (ok s) =
    read_header transaction_id unit_id pdu (read_exactly 7 s)

-- _request: the new client, the bytes written, what the observer is told, and the result.
pub record Request : Type 0 where
  pub client : TcpClient
  pub sent : List ℕ
  pub exchange : ModbusExchange
  pub result : Result (List ℕ)

unfoldable pub request : List ℕ → Result Stream → TcpClient → Request
unfolding observe
request pdu connection c =
    let transaction_id = (c.transaction_id + 1) % 0x10000 in
    let sent = mbap transaction_id (length pdu + 1) c.unit_id ++ pdu in
    let attempt = receive transaction_id c.unit_id pdu connection in
    record {
      client = record c { transaction_id = transaction_id };
      sent = sent;
      exchange = observe c.unit_id pdu sent attempt;
      result = attempt.result;
    }

abbrev pub read_pdu :
    ℕ → ℕ → Result Stream → TcpClient → Result (List ℕ) → TcpClient × Result (List ℕ)
read_pdu function_code count connection c (err e) = (c, err e)
read_pdu function_code count connection c (ok pdu) =
    let r = request pdu connection c in
    (r.client, r.result >>= λ response. parse_register_response response function_code count)

-- read_holding_registers and read_input_registers, for function codes 3 and 4. A request that the
-- codec refuses reaches no connection.
unfoldable pub read_registers : ℕ → ℤ → ℤ → Result Stream → TcpClient → TcpClient × Result (List ℕ)
read_registers function_code address count connection c =
    read_pdu function_code (pos_part count) connection c
      (read_registers_pdu function_code address count)

unfoldable pub read_identification :
    Result Stream → TcpClient → TcpClient × Result DeviceIdentification
read_identification connection c =
    let r = request read_device_identification connection c in
    (r.client, r.result >>= parse_device_identification)
