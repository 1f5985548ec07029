-- ===== src/Transports/Rtu/Reads.antt =====
-- Register reads over RTU from the request to the words
-- (src/morningstar_modbus/transports/modbus.py).
use morningstar_modbus_api.Prelude.{
  ℕ, ◌+◌, ◌-◌, ◌*◌, ◌≡◌, ap, subst, ◌∙◌, ◌⊎◌, inl, inr, true, false, List, [], ◌∷◌, ◌++◌, arith,
  ◌==◌, length, take-append, length-append,
}
use morningstar_modbus_api.Prelude.Int.{pos}
use morningstar_modbus_api.Errors.{Error, ok}
use morningstar_modbus_api.Protocol.Crc.{crc16, pack_le16, append_crc}
use morningstar_modbus_api.Protocol.Crc.Frame.{valid_crc-append_crc, length-append_crc}
use morningstar_modbus_api.Protocol.Codec.{pack_words, parse_register_response}
use morningstar_modbus_api.Protocol.Codec.Words.{length-pack_words}
use morningstar_modbus_api.Protocol.Codec.Requests.{IsLegal, frame, accepts}
use morningstar_modbus_api.Protocol.Codec.Responses.{register_response, parse-response}
use morningstar_modbus_api.Transports.Stream.{Stream, Reader, read_exactly, read_exactly-append}
use morningstar_modbus_api.Transports.Rtu.{
  ◌>>=◌, RtuClient, Port, words_of_request, ensure_open, register_frame, function_frame,
  frame_after, read_frame, inner, receive, exchange_blocking, request, read_registers,
}

-- What the unit sends for these words, and the stream in which it arrives.
abbrev pub reply_frame : ℕ → ℕ → List ℕ → List ℕ
reply_frame unit f ws = append_crc (unit ∷ register_response f ws)

abbrev pub reply_stream : ℕ → ℕ → List ℕ → List ℕ → Error → Stream
reply_stream unit f ws rest e = record { bytes = reply_frame unit f ws ++ rest; ending = e }

-- The words and the check word behind the byte count.
abbrev pub body : ℕ → ℕ → List ℕ → List ℕ
body unit f ws = pack_words ws ++ pack_le16 (crc16 (unit ∷ register_response f ws))

pub length-body : (unit f : ℕ) (ws : List ℕ) → length (body unit f ws) ≡ length ws * 2 + 2
length-body unit f ws = omega (
  arith,
  length-append (pack_words ws) (pack_le16 (crc16 (unit ∷ register_response f ws))),
  length-pack_words ws,
)

abbrev pub IsReadCode : ℕ → Type 0
IsReadCode f = (f ≡ 3) ⊎ (f ≡ 4)

-- What follows a reader that has succeeded.
bind_ok :
    {A B : Type 0} (m : Reader A) (f : A → Reader B) {s s' : Stream} {a : A}
    → m s ≡ ok (a, s')
    → (m >>= f) s ≡ f a s'
bind_ok m f e = rw (e, ◌>>=◌)

-- A byte count and what it announces.
register-read :
    (unit f n : ℕ) (xs rest : List ℕ) (e : Error)
    → length xs ≡ n + 2
    → register_frame (unit ∷ f ∷ []) (record { bytes = n ∷ (xs ++ rest); ending = e })
      ≡ ok (unit ∷ f ∷ n ∷ xs, record { bytes = rest; ending = e })
register-read unit f n xs rest e h =
    let later : Stream = record { bytes = xs ++ rest; ending = e } in
    let whole : read_exactly (n + 2) later ≡ ok (xs, record { bytes = rest; ending = e }) =
      subst (λ k. read_exactly k later ≡ ok (xs, record { bytes = rest; ending = e })) h
        (read_exactly-append xs rest e) in
    bind_ok (read_exactly 1) _ (read_exactly-append (n ∷ []) (xs ++ rest) e)
    ∙ bind_ok (read_exactly (n + 2)) _ whole

function-register :
    (unit f : ℕ) → IsReadCode f → function_frame (unit ∷ f ∷ []) ≡ register_frame (unit ∷ f ∷ [])
function-register unit f (inl three) = rw three
function-register unit f (inr four) = rw four

same_unit : (unit : ℕ) → (unit == unit) ≡ true
same_unit unit = ground arith

-- A frame of the unit and a code of a read is read to the end that its byte count announces.
pub read_frame_lem :
    (unit f n : ℕ) (xs rest : List ℕ) (e : Error)
    → IsReadCode f
    → length xs ≡ n + 2
    → read_frame unit (record { bytes = unit ∷ f ∷ n ∷ (xs ++ rest); ending = e })
      ≡ ok (unit ∷ f ∷ n ∷ xs, record { bytes = rest; ending = e })
unfolding read_frame
read_frame_lem unit f n xs rest e h announced =
    let opened : frame_after unit (unit ∷ f ∷ []) ≡ register_frame (unit ∷ f ∷ []) =
      rw (same_unit unit) (function-register unit f h) in
    bind_ok (read_exactly 2) (frame_after unit)
      (read_exactly-append (unit ∷ f ∷ []) (n ∷ (xs ++ rest)) e)
    ∙ ap (λ (m : Reader (List ℕ)). m (record { bytes = n ∷ (xs ++ rest); ending = e })) opened
    ∙ register-read unit f n xs rest e announced

frame-read :
    (unit f : ℕ) (ws rest : List ℕ) (e : Error)
    → IsReadCode f
    → read_frame unit (reply_stream unit f ws rest e)
      ≡ ok (reply_frame unit f ws, record { bytes = rest; ending = e })
unfolding append_crc
frame-read unit f ws rest e h =
    read_frame_lem unit f (length ws * 2) (body unit f ws) rest e h (length-body unit f ws)

inner-append_crc :
    (unit f : ℕ) (ws : List ℕ) → inner (reply_frame unit f ws) ≡ register_response f ws
inner-append_crc unit f ws =
    let n = length-append_crc (unit ∷ register_response f ws) in
    let e : length (reply_frame unit f ws) - 3 ≡ length (register_response f ws) =
      omega (arith, n) in
    rw e (
      unfold append_crc in
      take-append (register_response f ws) (pack_le16 (crc16 (unit ∷ register_response f ws))))

-- A unit's answer to a read is accepted, whatever follows it on the line.
receive-register :
    (unit f a c : ℕ) (ws rest : List ℕ) (e : Error)
    → IsReadCode f
    → receive unit (frame f a c) (reply_stream unit f ws rest e)
      ≡ ok (register_response f ws, reply_frame unit f ws)
unfolding receive
receive-register unit f a c ws rest e h = rw (
  frame-read unit f ws rest e h,
  valid_crc-append_crc (unit ∷ register_response f ws) (omega arith),
  inner-append_crc unit f ws,
  same_unit f,
)

ensure_open-ready : (c : RtuClient) → ensure_open (ok tt) c ≡ ok (record c { serial_open = true })
ensure_open-ready c = ground arith

exchange-ok :
    (pdu p whole : List ℕ) (s : Stream) (c : RtuClient)
    → receive c.unit_id pdu s ≡ ok (p, whole)
    → exchange_blocking pdu (record { opening = ok tt; writing = ok s }) c
      ≡ (record c { serial_open = true }, ok (p, whole))
unfolding exchange_blocking
exchange-ok pdu p whole s c h = rw (ensure_open-ready c, h)

request-ok :
    (f count : ℕ) (ws pdu p whole : List ℕ) (port : Port) (c : RtuClient)
    → c.is_closed ≡ false
    → exchange_blocking pdu port c ≡ (record c { serial_open = true }, ok (p, whole))
    → parse_register_response p f count ≡ ok ws
    → words_of_request f count c (request pdu port c) ≡ (record c { serial_open = true }, ok ws)
unfolding request
request-ok f count ws pdu p whole port c alive e words = ground arith

-- A legal read over a serial port that opens and takes the request returns the words that the unit
-- answered with, whatever follows the answer on the line, and leaves the port open.
pub rtu_read_answered :
    (f a count : ℕ) (ws rest : List ℕ) (e : Error) (c : RtuClient)
    → IsLegal f (pos a) (pos count)
    → length ws ≡ count
    → c.is_closed ≡ false
    → read_registers f
        (pos a)
        (pos count)
        (record { opening = ok tt; writing = ok (reply_stream c.unit_id f ws rest e) })
        c
      ≡ (record c { serial_open = true }, ok ws)
unfolding read_registers
rtu_read_answered f a count ws rest e c h n alive =
    let port : Port = record {
      opening = ok tt;
      writing = ok (reply_stream c.unit_id f ws rest e);
    } in
    let words : parse_register_response (register_response f ws) f count ≡ ok ws =
      subst (λ k. parse_register_response (register_response f ws) f k ≡ ok ws) n
        (parse-response f ws) in
    rw (accepts f a count h) (
      request-ok f count ws (frame f a count) _ _ port c alive
        (exchange-ok (frame f a count) _ _ (reply_stream c.unit_id f ws rest e) c
          (receive-register c.unit_id f a count ws rest e h.read_only))
        words)
