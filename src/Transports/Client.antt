-- ===== src/Transports/Client.antt =====
-- ReadOnlyModbusClient of src/morningstar_modbus/transports/modbus.py, as far as register reads go:
-- the interface that the profiles and the detection of a profile use, and the TCP client as one of
-- its implementations.
use morningstar_modbus_api.Prelude.{
  ℕ, zero, suc, ◌*◌, ◌≡◌, refl, subst, List, [], ◌∷◌, length, arith,
}
use morningstar_modbus_api.Prelude.Int.{pos}
use morningstar_modbus_api.Errors.{Result, ok, err, >>=-eq-ok}
use morningstar_modbus_api.Actions.{Action}
use morningstar_modbus_api.Catalog.Types.{RegisterFunction, holding, input}
use morningstar_modbus_api.Protocol.Codec.{read_registers_pdu, unpack_words}
use morningstar_modbus_api.Protocol.Codec.Responses.{parsed}
use morningstar_modbus_api.Transports.Stream.{Stream}
use morningstar_modbus_api.Transports.Tcp.{TcpClient, Request, request, read_pdu, read_registers}

-- read_holding_registers and read_input_registers, on the state of the client and its connection.
pub record ReadOnlyModbusClient : Type 1 where
  pub State : Type 0
  pub read : RegisterFunction → ℕ → ℕ → Action State (List ℕ)

-- A read that returns has as many words as were asked for.
abbrev pub AnswersInFull : ReadOnlyModbusClient → Type 0
AnswersInFull C =
    (f : RegisterFunction) (address count : ℕ) (s : C.State) (words : List ℕ)
    → (C.read f address count s).0 ≡ ok words
    → length words ≡ count

abbrev function_code : RegisterFunction → ℕ
function_code holding = 3
function_code input = 4

-- The TCP client over a network that has a connection, or a reason for there being none, for each
-- transaction.
abbrev pub tcp_client : (ℕ → Result Stream) → ReadOnlyModbusClient
tcp_client connect = record {
  State = TcpClient;
  read = λ f address count c.
      let (c', words) =
        read_registers (function_code f) (pos address) (pos count) (connect c.transaction_id) c in
      (words, c');
}

length-unpack_words :
    (count : ℕ) (body : List ℕ) → length body ≡ count * 2 → length (unpack_words body) ≡ count
length-unpack_words zero [] h = refl
length-unpack_words zero (b ∷ body) h = absurd (omega (arith, h))
length-unpack_words (suc count) [] h = absurd (omega (arith, h))
length-unpack_words (suc count) (b ∷ []) h = absurd (omega (arith, h))
length-unpack_words (suc count) (b ∷ c ∷ body) h =
    omega (arith, length-unpack_words count body (omega (arith, h)))

length-read_pdu :
    (f count : ℕ) (connection : Result Stream) (c : TcpClient) (pdu : Result (List ℕ))
    (words : List ℕ)
    → (read_pdu f count connection c pdu).1 ≡ ok words
    → length words ≡ count
length-read_pdu f count connection c (err e) words h = cc
length-read_pdu f count connection c (ok pdu) words h =
    let (response, e, k) = >>=-eq-ok (Request.result (request pdu connection c)) _ h in
    let p = parsed response f count words k in
    subst (λ ws. length ws ≡ count) p.words (length-unpack_words count p.body p.size)

-- The TCP client answers in full.
pub tcp_client-AnswersInFull : (connect : ℕ → Result Stream) → AnswersInFull (tcp_client connect)
unfolding read_registers
tcp_client-AnswersInFull connect f address count c words h =
    length-read_pdu (function_code f) count (connect c.transaction_id) c
      (read_registers_pdu (function_code f) (pos address) (pos count)) words h
