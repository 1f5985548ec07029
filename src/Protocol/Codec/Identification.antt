-- ===== src/Protocol/Codec/Identification.antt =====
-- parse_device_identification against the layout of the Read Device Identification response
-- (src/morningstar_modbus/protocol/codec.py).
use morningstar_modbus_api.Prelude.{
  ℕ, zero, suc, ◌≡◌, refl, ap, ◌∙◌, sym, inl, inr, ◌↔◌, ◌&&◌, not, ◌==◌, false, List, [], ◌∷◌, ◌++◌,
  map, arith, ltb, length, take, drop, length-append, take-append, drop-append, take-append-drop,
  length-take, Bool-cases,
}
use mathlib.Core.List.{append-nil, append_assoc}
use morningstar_modbus_api.Prelude.Text.{Text, hex}
use morningstar_modbus_api.Errors.{
  Result, ok, err, ◌>>=◌, ◌>>◌, raise_if, protocol_error, identification_header,
}
use morningstar_modbus_api.Protocol.Codec.{
  DeviceIdentification, object_text, read_objects, object_or_empty, identification,
  parse_device_identification,
}

-- An object as it is sent: its id and its bytes.
abbrev pub RawObject : Type 0
RawObject = ℕ × List ℕ

abbrev pub encode_objects : List RawObject → List ℕ
encode_objects [] = []
encode_objects ((object_id, value) ∷ rest) =
    object_id ∷ length value ∷ (value ++ encode_objects rest)

abbrev pub decoded : RawObject → ℕ × Text
decoded (object_id, value) = (object_id, object_text value)

-- The whole response; m and n are the two bytes that the parser skips.
abbrev pub identification_pdu : ℕ → ℕ → ℕ → List RawObject → List ℕ
identification_pdu conformity m n objects =
    0x2B ∷ 0x0E ∷ 0x01 ∷ conformity ∷ m ∷ n ∷ length objects ∷ encode_objects objects

pub read_objects-encode :
    (objects : List RawObject) (rest : List ℕ)
    → read_objects (length objects) (encode_objects objects ++ rest)
      ≡ ok (map decoded objects, rest)
unfolding read_objects
read_objects-encode [] rest = refl
read_objects-encode ((k, v) ∷ objects) rest =
    let later = encode_objects objects ++ rest in
    let fits : ltb (length (v ++ later)) (length v) ≡ false =
      ground (arith, length-append v later) in
    rw (
      append_assoc,
      fits,
      take-append v later,
      drop-append v later,
      read_objects-encode objects rest,
    )

record Found (n : ℕ) (bs : List ℕ) (objects : List (ℕ × Text)) (rest : List ℕ) : Type 0 where
  raw : List RawObject
  count : length raw ≡ n
  layout : bs ≡ encode_objects raw ++ rest
  values : objects ≡ map decoded raw

abbrev put_front : ℕ × Text → List (ℕ × Text) × List ℕ → Result (List (ℕ × Text) × List ℕ)
put_front o later = ok (o ∷ later.0, later.1)

-- Inversion of the step that puts an object in front of the later ones.
in_front :
    (r : Result (List (ℕ × Text) × List ℕ)) (o : ℕ × Text) (objects : List (ℕ × Text))
    (rest : List ℕ)
    → (r >>= put_front o) ≡ ok (objects, rest)
    → (more : List (ℕ × Text)) × (r ≡ ok (more, rest)) × (objects ≡ o ∷ more)
in_front (ok (more, rest')) o objects rest h = (more, ground arith, ground arith)
in_front (err e) o objects rest h = absurd (ground arith)

Found-later :
    (n k size : ℕ) (body : List ℕ) (objects : List (ℕ × Text)) (rest : List ℕ)
    {more : List (ℕ × Text)}
    → ltb (length body) size ≡ false
    → objects ≡ (k, object_text (take size body)) ∷ more
    → Found n (drop size body) more rest
    → Found (suc n) (k ∷ size ∷ body) objects rest
Found-later n k size body objects rest enough front later =
    let value = take size body in
    let whole : length value ≡ size = ground (arith, length-take size body) in
    let joined : body ≡ (value ++ encode_objects later.raw) ++ rest =
      sym (take-append-drop size body)
      ∙ ap (λ t. value ++ t) later.layout
      ∙ sym (append_assoc value (encode_objects later.raw) rest) in
    record {
      raw = (k, value) ∷ later.raw;
      count = omega (arith, later.count);
      layout = cc (whole, joined);
      values = cc (front, later.values);
    }

found :
    (n : ℕ) (bs : List ℕ) (objects : List (ℕ × Text)) (rest : List ℕ)
    → read_objects n bs ≡ ok (objects, rest)
    → Found n bs objects rest
unfolding read_objects
found zero bs objects rest h = record {
  raw = [];
  count = refl;
  layout = ground arith;
  values = ground arith;
}
found (suc n) [] objects rest h = ground arith
found (suc n) (k ∷ []) objects rest h = ground arith
found (suc n) (k ∷ size ∷ body) objects rest h = elim (Bool-cases (ltb (length body) size)) [
  | inl short ↦ absurd (let h' = rw short at h in ground arith)
  | inr enough ↦
      let (more, e, front) = in_front _ _ objects rest (rw enough at h) in
      let later = found n (drop size body) more rest e in
      Found-later n k size body objects rest enough front later
]

-- The identification made of objects that were read.
abbrev pub told : List ℕ → ℕ → List (ℕ × Text) → DeviceIdentification
told pdu conformity objects = record {
  vendor_name = object_or_empty 0 objects;
  product_code = object_or_empty 1 objects;
  major_minor_revision = object_or_empty 2 objects;
  conformity_level = conformity;
  raw_objects = objects;
  raw_pdu_hex = hex pdu;
}

-- A response of the documented layout, and what it says.
pub record Identifies (pdu : List ℕ) (d : DeviceIdentification) : Type 0 where
  pub conformity : ℕ
  pub m : ℕ
  pub n : ℕ
  pub raw : List RawObject
  pub layout : pdu ≡ identification_pdu conformity m n raw
  pub says : d ≡ told pdu conformity (map decoded raw)

closing :
    (pdu : List ℕ) (c : ℕ) (r : Result (List (ℕ × Text) × List ℕ)) (d : DeviceIdentification)
    → (r >>= identification pdu c) ≡ ok d
    → (objects : List (ℕ × Text)) × (r ≡ ok (objects, [])) × (d ≡ told pdu c objects)
closing pdu c (ok (objects, [])) d h = (objects, refl, ground arith)
closing pdu c (ok (objects, b ∷ rest)) d h = absurd (ground arith)
closing pdu c (err e) d h = absurd (ground arith)

header :
    (h i j : ℕ) (m : Result DeviceIdentification) {d : DeviceIdentification}
    → (raise_if (not (h == 0x2B && i == 0x0E && j == 0x01)) (protocol_error identification_header)
        >> m)
      ≡ ok d
    → (h ≡ 0x2B) × (i ≡ 0x0E) × (j ≡ 0x01) × (m ≡ ok d)
header h i j m e = (ground arith, ground arith, ground arith, ground arith)

sound :
    (pdu : List ℕ) (d : DeviceIdentification)
    → parse_device_identification pdu ≡ ok d
    → Identifies pdu d
unfolding parse_device_identification
sound (h ∷ i ∷ j ∷ c ∷ m ∷ n ∷ count ∷ rest) d e =
    let (hi, hj, hk, e') = header h i j _ e in
    let (objects, r, says) =
      closing (h ∷ i ∷ j ∷ c ∷ m ∷ n ∷ count ∷ rest) c (read_objects count rest) d e' in
    let f = found count rest objects [] r in
    let whole : rest ≡ encode_objects f.raw = f.layout ∙ append-nil (encode_objects f.raw) in
    record {
      conformity = c;
      m = m;
      n = n;
      raw = f.raw;
      layout = cc (hi, hj, hk, f.count, whole);
      says = cc (says, f.values);
    }
sound pdu d e = ground arith

complete :
    (pdu : List ℕ) (d : DeviceIdentification)
    → Identifies pdu d
    → parse_device_identification pdu ≡ ok d
unfolding parse_device_identification
complete pdu d k =
    let all = read_objects-encode k.raw [] in rw (k.says, k.layout) (rw (rw append-nil at all))

-- parse_device_identification accepts exactly the responses of the documented layout (header, a
-- conformity byte, two bytes that it skips, a count, and that many objects with nothing behind
-- them), and returns their objects in order with the last vendor, product and revision texts.
pub parse_device_identification_iff :
    (pdu : List ℕ) (d : DeviceIdentification)
    → (parse_device_identification pdu ≡ ok d) ↔ Identifies pdu d
parse_device_identification_iff pdu d = (sound pdu d, complete pdu d)
