-- ===== src/Transports/Tcp/Accepted.antt =====
-- Which replies AsyncModbusTcpClient._request accepts
-- (src/morningstar_modbus/transports/modbus.py).
use morningstar_modbus_api.Prelude.{
  ℕ, ◌+◌, ◌-◌, ◌≤◌, ◌<◌, ◌≡◌, refl, sym, ap, subst, ◌↔◌, true, false, List, [], ◌∷◌, ◌++◌, arith,
  length,
}
use morningstar_modbus_api.Errors.{Error, Result, ok, err}
use morningstar_modbus_api.Protocol.Crc.{IsBytes}
use morningstar_modbus_api.Transports.Stream.{
  Stream, read_exactly, read_exactly-Took, read_exactly-append,
}
use morningstar_modbus_api.Transports.Exchange.{has_top_bit, same_function}
use morningstar_modbus_api.Transports.Tcp.{
  mbap, check_header, check_pdu, finish, read_body, read_header, receive,
}

-- A response PDU that is not an exception and answers the request's function.
abbrev pub Answers : List ℕ → List ℕ → Type 0
Answers pdu [] = ⊥
Answers pdu (f ∷ rest) = (has_top_bit f ≡ false) × (same_function (f ∷ rest) pdu ≡ true)

check_pdu_sound : (pdu body p : List ℕ) → check_pdu pdu body ≡ ok p → (p ≡ body) × Answers pdu body
unfolding check_pdu
check_pdu_sound pdu [] p h = absurd (ground arith)
check_pdu_sound pdu (f ∷ []) p h = ground arith
check_pdu_sound pdu (f ∷ g ∷ body) p h = ground arith

check_pdu_complete : (pdu body : List ℕ) → Answers pdu body → check_pdu pdu body ≡ ok body
unfolding check_pdu
check_pdu_complete pdu [] h = absurd h
check_pdu_complete pdu (f ∷ []) h = ground arith
check_pdu_complete pdu (f ∷ g ∷ body) h = ground arith

check_header_sound :
    (tid unit : ℕ) (header : List ℕ) (size : ℕ)
    → IsBytes header
    → check_header tid unit header ≡ ok size
    → (2 ≤ size) × (header ≡ mbap tid size unit)
unfolding check_header
check_header_sound tid unit (t ∷ t' ∷ p ∷ p' ∷ l ∷ l' ∷ u ∷ []) size b h =
    (ground arith, ground arith)
check_header_sound tid unit header size b h = absurd (ground arith)

check_header_complete :
    (tid unit size : ℕ)
    → tid < 0x10000
    → size < 0x10000
    → 2 ≤ size
    → check_header tid unit (mbap tid size unit) ≡ ok size
unfolding check_header
check_header_complete tid unit size h k m = ground arith

-- A reply that the client takes for the answer p: the header of this very request, then p.
pub record Reply (tid unit : ℕ) (pdu : List ℕ) (s : Stream) (p : List ℕ) : Type 0 where
  pub rest : List ℕ
  pub layout : s.bytes ≡ mbap tid (length p + 1) unit ++ (p ++ rest)
  pub answers : Answers pdu p

All-front : (xs ys : List ℕ) → IsBytes (xs ++ ys) → IsBytes xs
All-front [] ys h = tt
All-front (x ∷ xs) ys h = (h.0, All-front xs ys h.1)

finish_sound :
    (pdu header : List ℕ) (r : Result (List ℕ × Stream)) (p : List ℕ)
    → (finish pdu header r).result ≡ ok p
    → (rest : Stream) × (r ≡ ok (p, rest)) × Answers pdu p
finish_sound pdu header (err e) p h = absurd (ground arith)
finish_sound pdu header (ok (body, rest)) p h =
    let (same, answers) = check_pdu_sound pdu body p h in
    (rest, ap (λ t. ok (t, rest)) (sym same), subst (Answers pdu) (sym same) answers)

body_sound :
    (pdu header : List ℕ) (s : Stream) (size : Result ℕ) (p : List ℕ)
    → (read_body pdu header s size).result ≡ ok p
    → (n : ℕ) × (rest : Stream) × (size ≡ ok n)
      × (read_exactly (n - 1) s ≡ ok (p, rest))
      × Answers pdu p
body_sound pdu header s (err e) p h = absurd (ground arith)
body_sound pdu header s (ok n) p h =
    let (rest, e, a) = finish_sound pdu header (read_exactly (n - 1) s) p h in (n, rest, refl, e, a)

sound :
    (tid unit : ℕ) (pdu : List ℕ) (s : Stream) (p : List ℕ)
    → IsBytes s.bytes
    → (r : Result (List ℕ × Stream)) → read_exactly 7 s ≡ r
    → (read_header tid unit pdu r).result ≡ ok p
    → Reply tid unit pdu s p
sound tid unit pdu s p b (err e) eq h = absurd (ground arith)
sound tid unit pdu s p b (ok (header, s')) eq h =
    let first = read_exactly-Took 7 s header s' eq in
    let (n, rest, checked, body, answers) =
      body_sound pdu header s' (check_header tid unit header) p h in
    let (two, shape) =
      check_header_sound tid unit header n (All-front header s'.bytes (subst IsBytes first.split b))
        checked in
    let second = read_exactly-Took (n - 1) s' p rest body in
    let size : n ≡ length p + 1 = omega (arith, second.count) in
    record {
      rest = rest.bytes;
      layout = cc (first.split, shape, second.split, size);
      answers = answers;
    }

pub complete :
    (tid unit : ℕ) (pdu rest p : List ℕ) (e : Error)
    → tid < 0x10000
    → length p + 1 < 0x10000
    → 0 < length p
    → Answers pdu p
    → (receive tid unit pdu
        (ok (record { bytes = mbap tid (length p + 1) unit ++ (p ++ rest); ending = e }))).result
      ≡ ok p
unfolding receive
complete tid unit pdu rest p e small short some answers =
    let back : length p + 1 - 1 ≡ length p = omega arith in
    rw (
      read_exactly-append (mbap tid (length p + 1) unit) (p ++ rest) e,
      check_header_complete tid unit (length p + 1) small short (omega arith),
      back,
      read_exactly-append p rest e,
      check_pdu_complete pdu p answers,
    )

Answers-nonempty : (pdu p : List ℕ) → Answers pdu p → 0 < length p
Answers-nonempty pdu [] h = absurd h
Answers-nonempty pdu (f ∷ p) h = omega arith

-- On a stream of bytes, a TCP exchange returns p exactly if the stream begins with the header of
-- this request (its transaction id, protocol 0, the length of p and the unit) followed by p, and p
-- is no exception and has the function code of the request. In particular a late answer to another
-- request, or another unit's, is not taken for this one's.
pub receive_iff :
    (tid unit : ℕ) (pdu p : List ℕ) (s : Stream)
    → tid < 0x10000
    → length p + 1 < 0x10000
    → IsBytes s.bytes
    → ((receive tid unit pdu (ok s)).result ≡ ok p) ↔ Reply tid unit pdu s p
receive_iff tid unit pdu p s small short b = (there, back)
  where
    there : ((receive tid unit pdu (ok s)).result ≡ ok p) → Reply tid unit pdu s p
    there h = sound tid unit pdu s p b (read_exactly 7 s) refl (unfold receive in h)

    back : Reply tid unit pdu s p → ((receive tid unit pdu (ok s)).result ≡ ok p)
    back r =
        let whole : s
            ≡ record { bytes = mbap tid (length p + 1) unit ++ (p ++ r.rest); ending = s.ending } =
          cc r.layout in
        rw whole (
          complete tid unit pdu r.rest p s.ending small short (Answers-nonempty pdu p r.answers)
            r.answers)
