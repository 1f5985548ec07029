-- ===== src/Transports/Stream.antt =====
-- What a client reads from: the bytes that the peer sends in one exchange, and the exception that a
-- read raises once they have run out (a timeout, a closed connection, an I/O error). The sockets
-- and the serial port are outside the repository, so both are given.
-- `readexactly` and `_read_exact` of src/morningstar_modbus/transports/modbus.py.
use morningstar_modbus_api.Prelude.{
  ℕ, ◌≡◌, sym, ap, inl, inr, true, List, ◌++◌, arith, leb, if◌then◌else◌, length, take, drop,
  length-take, length-append, take-append, drop-append, take-append-drop, Bool-cases,
}
use morningstar_modbus_api.Errors.{Error, Result, ok, err}

pub record Stream : Type 0 where
  pub bytes : List ℕ
  pub ending : Error

abbrev pub Reader : Type 0 → Type 0
Reader A = Stream → Result (A × Stream)

unfoldable pub read_exactly : ℕ → Reader (List ℕ)
read_exactly n s =
    if leb n (length s.bytes)
    then ok (take n s.bytes, record s { bytes = drop n s.bytes })
    else err s.ending

-- A read that succeeded took exactly the next bytes.
pub record Took (n : ℕ) (s : Stream) (got : List ℕ) (rest : Stream) : Type 0 where
  pub count : length got ≡ n
  pub split : s.bytes ≡ got ++ rest.bytes

pub read_exactly-Took :
    (n : ℕ) (s : Stream) (got : List ℕ) (rest : Stream)
    → read_exactly n s ≡ ok (got, rest)
    → Took n s got rest
unfolding read_exactly
read_exactly-Took n s got rest h = elim (Bool-cases (leb n (length s.bytes))) [
  | inl enough ↦
      let taken : take n s.bytes ≡ got = ground arith in
      let left : drop n s.bytes ≡ rest.bytes = ground arith in
      record {
        count = ground (arith, length-take n s.bytes, ap length taken);
        split = cc (sym (take-append-drop n s.bytes), taken, left);
      }
  | inr short ↦ absurd (ground arith)
]

-- Bytes that are there are read.
pub read_exactly-append :
    (front back : List ℕ) (e : Error)
    → read_exactly (length front) (record { bytes = front ++ back; ending = e })
      ≡ ok (front, record { bytes = back; ending = e })
unfolding read_exactly
read_exactly-append front back e =
    let enough : leb (length front) (length (front ++ back)) ≡ true =
      ground (arith, length-append front back) in
    rw (enough, take-append front back, drop-append front back)
