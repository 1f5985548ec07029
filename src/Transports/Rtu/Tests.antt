-- ===== src/Transports/Rtu/Tests.antt =====
-- Runs of the RTU client, and its theorems at them.
use morningstar_modbus_api.Prelude.{ℕ, ◌≡◌, refl, inl, true, false, List, [], ◌∷◌, ◌++◌, arith}
use morningstar_modbus_api.Prelude.Int.{pos}
use morningstar_modbus_api.Errors.{ok, err, protocol_error, device_error, timeout_error, rtu_crc}
use morningstar_modbus_api.Protocol.Crc.{append_crc, crc16, valid_crc}
use morningstar_modbus_api.Transports.Stream.{Stream, read_exactly}
use morningstar_modbus_api.Transports.Rtu.{
  RtuClient, Port, receive, exchange_blocking, read_registers,
}
use morningstar_modbus_api.Transports.Rtu.Accepted.{Accepts, receive-Accepts}
use morningstar_modbus_api.Transports.Rtu.Reads.{reply_stream, rtu_read_answered}
use morningstar_modbus_api.Transports.Rtu.Noise.{receive-noise}
use morningstar_modbus_api.Transports.Rtu.PortState.{
  Leaves, IsOpened, IsDropped, exchange_blocking-Leaves,
}

abbrev client : RtuClient
client = record { unit_id = 1; serial_open = false; is_closed = false }

abbrev wire : List ℕ → Stream
wire bytes = record { bytes = bytes; ending = timeout_error }

abbrev port : List ℕ → Port
port bytes = record { opening = ok tt; writing = ok (wire bytes) }

abbrev request_pdu : List ℕ
request_pdu = 3 ∷ 0 ∷ 8 ∷ 0 ∷ 1 ∷ []

abbrev answer : List ℕ
answer = 1 ∷ 3 ∷ 2 ∷ 0x12 ∷ 0x34 ∷ 0xB5 ∷ 0x33 ∷ []

accepted : receive 1 request_pdu (wire answer) ≡ ok (3 ∷ 2 ∷ 0x12 ∷ 0x34 ∷ [], answer)
unfolding receive read_exactly valid_crc crc16
accepted = refl

illegal_function :
    receive 1 request_pdu (wire (1 ∷ 0x83 ∷ 2 ∷ 0xC0 ∷ 0xF1 ∷ [])) ≡ err (device_error 3 2)
unfolding receive read_exactly valid_crc crc16
illegal_function = refl

flipped :
    receive 1 request_pdu (wire (1 ∷ 3 ∷ 2 ∷ 0x12 ∷ 0x35 ∷ 0xB5 ∷ 0x33 ∷ []))
    ≡ err (protocol_error rtu_crc)
unfolding receive read_exactly valid_crc crc16
flipped = refl

-- A unit that falls silent closes the port.
silent : exchange_blocking request_pdu (port (1 ∷ 3 ∷ [])) client ≡ (client, err timeout_error)
unfolding exchange_blocking receive read_exactly
silent = refl

receive-Accepts_example : Accepts 1 request_pdu (wire answer) (3 ∷ 2 ∷ 0x12 ∷ 0x34 ∷ []) answer
receive-Accepts_example =
    receive-Accepts 1 request_pdu (3 ∷ 2 ∷ 0x12 ∷ 0x34 ∷ []) answer (wire answer) (omega arith)
      accepted

receive-noise_example :
    receive 1 request_pdu (wire (1 ∷ 3 ∷ 2 ∷ ((0x12 ∷ 0x35 ∷ 0xB5 ∷ 0x33 ∷ []) ++ 9 ∷ [])))
    ≡ err (protocol_error rtu_crc)
receive-noise_example =
    receive-noise 1 3 (0x1234 ∷ []) (0x12 ∷ []) (0xB5 ∷ 0x33 ∷ []) (9 ∷ []) request_pdu 0x34 0x35
      timeout_error (inl refl) (unfold append_crc crc16 in refl)
      (unfold append_crc crc16 in omega arith) (omega arith) (λ e. omega arith)

rtu_read_answered_example :
    read_registers 3
      (pos 8)
      (pos 1)
      (record { opening = ok tt; writing = ok (reply_stream 1 3 (0x1234 ∷ []) [] timeout_error) })
      client
    ≡ (record client { serial_open = true }, ok (0x1234 ∷ []))
rtu_read_answered_example =
    rtu_read_answered 3 8 1 (0x1234 ∷ []) [] timeout_error client
      (record {
        read_only = inl refl;
        address_range = (refl, omega arith);
        count_range = (refl, omega arith, omega arith);
      })
      refl refl

exchange_blocking-Leaves_example :
    let (c', r) = exchange_blocking request_pdu (port answer) client in
    Leaves client c' (IsOpened client (ok tt) × (¬ IsDropped r))
exchange_blocking-Leaves_example = exchange_blocking-Leaves request_pdu (port answer) client
