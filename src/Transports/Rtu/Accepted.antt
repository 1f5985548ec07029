-- ===== src/Transports/Rtu/Accepted.antt =====
-- Which frames AsyncModbusRtuClient._exchange_blocking accepts
-- (src/morningstar_modbus/transports/modbus.py).
use mathlib.Core.List.{append_assoc}
use morningstar_modbus_api.Prelude.{
  ℕ, zero, suc, ◌+◌, ◌-◌, ◌<◌, ◌≡◌, refl, sym, ap, subst, ◌∙◌, inl, inr, true, not, ◌||◌, List, [],
  ◌∷◌, ◌++◌, arith, ◌==◌, length, take, Bool-cases,
}
use morningstar_modbus_api.Errors.{Result, ok, err}
use morningstar_modbus_api.Protocol.Crc.{IsBytes, append_crc, valid_crc}
use morningstar_modbus_api.Protocol.Crc.Frame.{append_crc-take, closed_by}
use morningstar_modbus_api.Transports.Stream.{Stream, Reader, read_exactly, read_exactly-Took}
use morningstar_modbus_api.Transports.Exchange.{has_top_bit, same_function}
use morningstar_modbus_api.Transports.Rtu.{
  ◌>>=◌, pure, first, second, read_object_bytes, exception_frame, register_frame, object_count,
  objects_tail, identification_frame, function_frame, frame_after, read_frame, inner, check_frame,
  checked, receive,
}

record Bound {A B : Type 0} (m : Reader A) (f : A → Reader B) (s t : Stream) (b : B) : Type 0 where
  value : A
  between : Stream
  before : m s ≡ ok (value, between)
  after : f value between ≡ ok (b, t)

-- A chain that succeeded has succeeded in both of its parts.
bound :
    {A B : Type 0} (m : Reader A) (f : A → Reader B) (s t : Stream) (b : B)
    → (m >>= f) s ≡ ok (b, t)
    → Bound m f s t b
bound {A} {B} m f s t b h = go (m s) refl h
  where
    go :
        (r : Result (A × Stream))
        → m s ≡ r
        → (elim r [ ok (a, s') ↦ f a s' | err e ↦ err e ]) ≡ ok (b, t)
        → Bound m f s t b
    go (ok (a, s')) e k = record { value = a; between = s'; before = e; after = k }
    go (err x) e k = absurd (ground arith)

-- The bytes that were read between two streams.
abbrev Read : Stream → List ℕ → Stream → Type 0
Read s bs t = s.bytes ≡ bs ++ t.bytes

Read-trans : (s t u : Stream) (xs ys : List ℕ) → Read s xs t → Read t ys u → Read s (xs ++ ys) u
Read-trans s t u xs ys h k = cc (h, k, append_assoc xs ys u.bytes)

exactly-Read : (n : ℕ) (s t : Stream) (bs : List ℕ) → read_exactly n s ≡ ok (bs, t) → Read s bs t
exactly-Read n s t bs h = (read_exactly-Took n s bs t h).split

pure-Read : (s t u : Stream) (xs ys : List ℕ) → pure xs t ≡ ok (ys, u) → Read s xs t → Read s ys u
pure-Read s t u xs ys h k = ground arith

objects-Read :
    (n : ℕ) (s t : Stream) (bs : List ℕ) → read_object_bytes n s ≡ ok (bs, t) → Read s bs t
unfolding read_object_bytes
objects-Read zero s t bs h = ground arith
objects-Read (suc n) s t bs h =
    let b₁ = bound (read_exactly 2) _ s t bs h in
    let b₂ = bound (read_exactly (second b₁.value)) _ b₁.between t bs b₁.after in
    let b₃ = bound (read_object_bytes n) _ b₂.between t bs b₂.after in
    pure-Read s b₃.between t (b₁.value ++ (b₂.value ++ b₃.value)) bs b₃.after (
      Read-trans s b₁.between b₃.between b₁.value (b₂.value ++ b₃.value)
        (exactly-Read 2 s b₁.between b₁.value b₁.before)
        (Read-trans b₁.between b₂.between b₃.between b₂.value b₃.value
          (exactly-Read (second b₁.value) b₁.between b₂.between b₂.value b₂.before)
          (objects-Read n b₂.between b₃.between b₃.value b₃.before)))

-- A frame that begins with what was read before, and the rest of which was read now.
record Extends (prefix : List ℕ) (s t : Stream) (frame : List ℕ) : Type 0 where
  tail : List ℕ
  whole : frame ≡ prefix ++ tail
  read : Read s tail t

pure-Extends :
    (prefix tail frame : List ℕ) (s t u : Stream)
    → pure (prefix ++ tail) t ≡ ok (frame, u)
    → Read s tail t
    → Extends prefix s u frame
pure-Extends prefix tail frame s t u h k = record {
  tail = tail;
  whole = ground arith;
  read = ground arith;
}

register-Extends :
    (prefix frame : List ℕ) (s t : Stream)
    → register_frame prefix s ≡ ok (frame, t)
    → Extends prefix s t frame
register-Extends prefix frame s t h =
    let b₁ = bound (read_exactly 1) _ s t frame h in
    let b₂ = bound (read_exactly (first b₁.value + 2)) _ b₁.between t frame b₁.after in
    pure-Extends prefix (b₁.value ++ b₂.value) frame s b₂.between t b₂.after (
      Read-trans s b₁.between b₂.between b₁.value b₂.value
        (exactly-Read 1 s b₁.between b₁.value b₁.before)
        (exactly-Read (first b₁.value + 2) b₁.between b₂.between b₂.value b₂.before))

objects_tail-Extends :
    (prefix fixed frame : List ℕ) (s₀ s t : Stream)
    → Read s₀ fixed s
    → objects_tail prefix fixed s ≡ ok (frame, t)
    → Extends prefix s₀ t frame
objects_tail-Extends prefix fixed frame s₀ s t k h =
    let n = object_count fixed in
    let b₁ = bound (read_object_bytes n) _ s t frame h in
    let b₂ = bound (read_exactly 2) _ b₁.between t frame b₁.after in
    pure-Extends prefix (fixed ++ (b₁.value ++ b₂.value)) frame s₀ b₂.between t b₂.after (
      Read-trans s₀ s b₂.between fixed (b₁.value ++ b₂.value) k (
        Read-trans s b₁.between b₂.between b₁.value b₂.value
          (objects-Read n s b₁.between b₁.value b₁.before)
          (exactly-Read 2 b₁.between b₂.between b₂.value b₂.before)))

identification-Extends :
    (prefix frame : List ℕ) (s t : Stream)
    → identification_frame prefix s ≡ ok (frame, t)
    → Extends prefix s t frame
identification-Extends prefix frame s t h =
    let b = bound (read_exactly 6) _ s t frame h in
    let test = not (first b.value == 0x0E) || not (second b.value == 0x01) in
    elim (Bool-cases test) [
      | inl bad ↦ absurd (let k = rw bad at b.after in ground arith)
      | inr good ↦
          objects_tail-Extends prefix b.value frame s b.between t
            (exactly-Read 6 s b.between b.value b.before) (rw good at b.after)
    ]

exception_returns_nothing :
    (prefix frame : List ℕ) (s t : Stream) → exception_frame prefix s ≡ ok (frame, t) → ⊥
exception_returns_nothing prefix frame s t h =
    let b = bound (read_exactly 3) _ s t frame h in
    elim (Bool-cases (valid_crc (prefix ++ b.value))) [
      | inl good ↦ (let k = rw good at b.after in ground arith)
      | inr bad ↦ (let k = rw bad at b.after in ground arith)
    ]

-- The branches on the function code, once the unit is right.
function-Extends :
    (prefix frame : List ℕ) (s t : Stream)
    → function_frame prefix s ≡ ok (frame, t)
    → Extends prefix s t frame
function-Extends prefix frame s t h = elim (Bool-cases (has_top_bit (second prefix))) [
  | inl bad ↦ absurd (exception_returns_nothing prefix frame s t (rw bad at h))
  | inr good ↦
      let h₁ = rw good at h in
      elim (Bool-cases (second prefix == 0x03 || second prefix == 0x04)) [
        | inl registers ↦ register-Extends prefix frame s t (rw registers at h₁)
        | inr other ↦
            let h₂ = rw other at h₁ in
            elim (Bool-cases (second prefix == 0x2B)) [
              | inl identification ↦
                  identification-Extends prefix frame s t (rw identification at h₂)
              | inr unknown ↦ absurd (let h₃ = rw unknown at h₂ in ground arith)
            ]
      ]
]

after-Extends :
    (unit : ℕ) (prefix frame : List ℕ) (s t : Stream)
    → frame_after unit prefix s ≡ ok (frame, t)
    → Extends prefix s t frame × (first prefix ≡ unit)
after-Extends unit prefix frame s t h = elim (Bool-cases (first prefix == unit)) [
  | inl same ↦ (function-Extends prefix frame s t (rw same at h), ground arith)
  | inr other ↦ absurd (let k = rw other at h in ground arith)
]

-- What is known of a frame that came out of the port.
pub record Arrived (unit : ℕ) (s : Stream) (frame : List ℕ) : Type 0 where
  pub function_code : ℕ
  pub body : List ℕ
  pub rest : Stream
  pub layout : frame ≡ unit ∷ function_code ∷ body
  pub read : s.bytes ≡ frame ++ rest.bytes

two_bytes : (bs : List ℕ) → length bs ≡ 2 → bs ≡ first bs ∷ second bs ∷ []
two_bytes [] h = absurd (omega arith)
two_bytes (a ∷ []) h = absurd (omega arith)
two_bytes (a ∷ b ∷ []) h = refl
two_bytes (a ∷ b ∷ c ∷ bs) h = absurd (omega arith)

read_frame-Arrived :
    (unit : ℕ) (s t : Stream) (frame : List ℕ)
    → read_frame unit s ≡ ok (frame, t)
    → Arrived unit s frame
unfolding read_frame
read_frame-Arrived unit s t frame h =
    let b = bound (read_exactly 2) (frame_after unit) s t frame h in
    let (x, right) = after-Extends unit b.value frame b.between t b.after in
    let front = read_exactly-Took 2 s b.value b.between b.before in
    let pair = two_bytes b.value front.count in
    let prefix : b.value ≡ unit ∷ second b.value ∷ [] = cc (pair, right) in
    let whole : frame ≡ (unit ∷ second b.value ∷ []) ++ x.tail = cc (x.whole, prefix) in
    record {
      function_code = second b.value;
      body = x.tail;
      rest = t;
      layout = whole;
      read =
          subst (λ f. s.bytes ≡ f ++ t.bytes) (sym x.whole)
            (Read-trans s b.between t b.value x.tail front.split x.read);
    }

-- An accepted exchange: what came in is the payload under its check word, nothing before it.
pub record Accepts (unit : ℕ) (pdu : List ℕ) (s : Stream) (p frame : List ℕ) : Type 0 where
  pub rest : List ℕ
  pub closed : frame ≡ append_crc (unit ∷ p)
  pub read : s.bytes ≡ frame ++ rest
  pub valid : valid_crc frame ≡ true
  pub answers : same_function p pdu ≡ true

record Passed (pdu frame p whole : List ℕ) : Type 0 where
  same : whole ≡ frame
  valid : valid_crc frame ≡ true
  inside : p ≡ inner frame
  answers : same_function (inner frame) pdu ≡ true

passed :
    (pdu frame p whole : List ℕ) → check_frame pdu frame ≡ ok (p, whole) → Passed pdu frame p whole
unfolding check_frame
passed pdu frame p whole h = elim (Bool-cases (valid_crc frame)) [
  | inl good ↦
      let k = rw good at h in
      elim (Bool-cases (same_function (inner frame) pdu)) [
        | inl right ↦
            let e = rw right at k in
            record { same = ground arith; valid = good; inside = ground arith; answers = right }
        | inr wrong ↦ absurd (let e = rw wrong at k in ground arith)
      ]
  | inr bad ↦ absurd (let k = rw bad at h in ground arith)
]

-- The front of a frame that begins with the unit is the unit and what lies inside.
front-inner :
    (unit f : ℕ) (body : List ℕ)
    → 0 < length body
    → take (length (unit ∷ f ∷ body) - 2) (unit ∷ f ∷ body) ≡ unit ∷ inner (unit ∷ f ∷ body)
front-inner unit f [] h = absurd (omega arith)
front-inner unit f (b ∷ body) h =
    let e : suc (suc (suc (length body))) - 2 ≡ suc (length body) = omega arith in
    let e' : suc (suc (suc (length body))) - 3 ≡ length body = omega arith in rw (e, e')

frame-closed :
    (unit : ℕ) (s : Stream) (frame : List ℕ)
    → IsBytes frame
    → Arrived unit s frame
    → valid_crc frame ≡ true
    → frame ≡ append_crc (unit ∷ inner frame)
frame-closed unit s frame b a v =
    let long = closed_by frame v in
    let some : 0 < length a.body = omega (arith, long.0, ap length a.layout) in
    let front : take (length frame - 2) frame ≡ unit ∷ inner frame =
      subst (λ f. take (length f - 2) f ≡ unit ∷ inner f) (sym a.layout)
        (front-inner unit a.function_code a.body some) in
    sym (append_crc-take frame b v) ∙ ap append_crc front

All-front : (xs ys : List ℕ) → IsBytes (xs ++ ys) → IsBytes xs
All-front [] ys h = tt
All-front (x ∷ xs) ys h = (h.0, All-front xs ys h.1)

-- An RTU exchange over bytes returns p only if the port sent the unit and p under their check
-- word, from the first byte of the exchange on, and p has the function code of the request.
pub receive-Accepts :
    (unit : ℕ) (pdu p frame : List ℕ) (s : Stream)
    → IsBytes s.bytes
    → receive unit pdu s ≡ ok (p, frame)
    → Accepts unit pdu s p frame
receive-Accepts unit pdu p frame s b h = go (read_frame unit s) refl (unfold receive in h)
  where
    go :
        (r : Result (List ℕ × Stream))
        → read_frame unit s ≡ r
        → checked pdu r ≡ ok (p, frame)
        → Accepts unit pdu s p frame
    go (err e) eq k = absurd (ground arith)
    go (ok (f, t)) eq k =
        let a = read_frame-Arrived unit s t f eq in
        let w = passed pdu f p frame k in
        let bytes : IsBytes f = All-front f a.rest.bytes (subst IsBytes a.read b) in
        let closed = frame-closed unit s f bytes a w.valid in
        record {
          rest = a.rest.bytes;
          closed = cc (w.same, closed, w.inside);
          read = cc (w.same, a.read);
          valid = rw w.same w.valid;
          answers = rw w.inside w.answers;
        }
