-- ===== src/Transports/Tcp/Tests.antt =====
-- Runs of the TCP client, and its theorems at them.
use morningstar_modbus_api.Prelude.{ℕ, ◌≡◌, refl, ◌↔◌, inl, List, [], ◌∷◌, arith}
use morningstar_modbus_api.Prelude.Int.{pos}
use morningstar_modbus_api.Errors.{
  ok, err, protocol_error, device_error, timeout_error, response_header,
}
use morningstar_modbus_api.Transports.Stream.{Stream}
use morningstar_modbus_api.Transports.Tcp.{TcpClient, receive, request, read_registers}
use morningstar_modbus_api.Transports.Tcp.Accepted.{Reply, receive_iff}
use morningstar_modbus_api.Transports.Tcp.Reads.{reply_stream, tcp_read_answered}

abbrev client : TcpClient
client = record { unit_id = 1; transaction_id = 0xFFFE }

abbrev wire : List ℕ → Stream
wire bytes = record { bytes = bytes; ending = timeout_error }

abbrev request_pdu : List ℕ
request_pdu = 3 ∷ 0 ∷ 8 ∷ 0 ∷ 1 ∷ []

abbrev answer : List ℕ
answer = 3 ∷ 2 ∷ 0x12 ∷ 0x34 ∷ []

abbrev answered : Stream
answered = wire (0xFF ∷ 0xFF ∷ 0 ∷ 0 ∷ 0 ∷ 5 ∷ 1 ∷ answer)

receives : (receive 0xFFFF 1 request_pdu (ok answered)).result ≡ ok answer
unfolding receive
receives = refl

stale : (receive 0 1 request_pdu (ok answered)).result ≡ err (protocol_error response_header)
unfolding receive
stale = refl

illegal_address :
    (receive 7 1 request_pdu (ok (wire (0 ∷ 7 ∷ 0 ∷ 0 ∷ 0 ∷ 3 ∷ 1 ∷ 0x83 ∷ 2 ∷ [])))).result
    ≡ err (device_error 3 2)
unfolding receive
illegal_address = refl

cut_short : (receive 7 1 request_pdu (ok (wire (0 ∷ 7 ∷ 0 ∷ [])))).result ≡ err timeout_error
unfolding receive
cut_short = refl

request_wraps :
    (request request_pdu
      (err timeout_error)
      (record client { transaction_id = 0xFFFF })).client.transaction_id
    ≡ 0
unfolding request
request_wraps = refl

receive_iff_example :
    ((receive 0xFFFF 1 request_pdu (ok answered)).result ≡ ok answer)
    ↔ Reply 0xFFFF 1 request_pdu answered answer
receive_iff_example =
    receive_iff 0xFFFF 1 request_pdu answer answered (omega arith) (omega arith) (omega arith)

tcp_read_answered_example :
    read_registers 3
      (pos 8)
      (pos 1)
      (ok (reply_stream client 3 (0x1234 ∷ []) (9 ∷ []) timeout_error))
      client
    ≡ (record client { transaction_id = 0xFFFF }, ok (0x1234 ∷ []))
tcp_read_answered_example =
    tcp_read_answered 3 8 1 (0x1234 ∷ []) (9 ∷ []) timeout_error client
      (record {
        read_only = inl refl;
        address_range = (refl, omega arith);
        count_range = (refl, omega arith, omega arith);
      })
      refl
