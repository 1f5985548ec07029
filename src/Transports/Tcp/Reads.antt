-- ===== src/Transports/Tcp/Reads.antt =====
-- Register reads over TCP from the request to the words
-- (src/morningstar_modbus/transports/modbus.py).
use morningstar_modbus_api.Prelude.{ℕ, ◌+◌, ◌%◌, ◌≡◌, subst, inl, inr, List, ◌++◌, arith, length}
use morningstar_modbus_api.Prelude.Int.{pos}
use morningstar_modbus_api.Errors.{Error, ok}
use morningstar_modbus_api.Protocol.Codec.{parse_register_response}
use morningstar_modbus_api.Protocol.Codec.Words.{length-pack_words}
use morningstar_modbus_api.Protocol.Codec.Requests.{IsLegal, frame, accepts}
use morningstar_modbus_api.Protocol.Codec.Responses.{register_response, parse-response}
use morningstar_modbus_api.Transports.Stream.{Stream}
use morningstar_modbus_api.Transports.Tcp.{TcpClient, mbap, request, read_registers}
use morningstar_modbus_api.Transports.Tcp.Accepted.{Answers, complete}

-- The transaction id of the next request.
abbrev pub next_id : TcpClient → ℕ
next_id c = (c.transaction_id + 1) % 0x10000

-- What a unit sends that answers the client's next request with these words.
abbrev pub reply_stream : TcpClient → ℕ → List ℕ → List ℕ → Error → Stream
reply_stream c f ws rest e = record {
  bytes =
      mbap (next_id c) (length (register_response f ws) + 1) c.unit_id
      ++ (register_response f ws ++ rest);
  ending = e;
}

Answers-read :
    (f a c : ℕ) (ws : List ℕ)
    → IsLegal f (pos a) (pos c)
    → Answers (frame f a c) (register_response f ws)
Answers-read f a c ws h = elim h.read_only [
  | inl three ↦ (ground arith, ground arith)
  | inr four ↦ (ground arith, ground arith)
]

-- A legal read of a unit that answers it returns the words that the unit sent, whatever the
-- connection carries behind the answer, and moves the transaction id on by one, from 65535 to 0.
pub tcp_read_answered :
    (f a count : ℕ) (ws rest : List ℕ) (e : Error) (c : TcpClient)
    → IsLegal f (pos a) (pos count)
    → length ws ≡ count
    → read_registers f (pos a) (pos count) (ok (reply_stream c f ws rest e)) c
      ≡ (record c { transaction_id = next_id c }, ok ws)
unfolding read_registers
tcp_read_answered f a count ws rest e c h n =
    let got =
      complete (next_id c) c.unit_id (frame f a count) rest (register_response f ws) e (omega arith)
        (omega (arith, length-pack_words ws)) (omega arith) (Answers-read f a count ws h) in
    let words : parse_register_response (register_response f ws) f count ≡ ok ws =
      subst (λ k. parse_register_response (register_response f ws) f k ≡ ok ws) n
        (parse-response f ws) in
    rw (accepts f a count h) (unfold request in rw (got, words))
