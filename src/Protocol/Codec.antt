-- ===== src/Protocol/Codec.antt =====
-- Requests and responses: read_registers_pdu, parse_register_response and
-- parse_device_identification of src/morningstar_modbus/protocol/codec.py, and _request_shape of
-- src/morningstar_modbus/transports/modbus.py.
pub mod Words
pub mod Requests
pub mod Responses
pub mod Identification
mod Tests
use morningstar_modbus_api.Prelude.{
  ℕ, zero, suc, ◌+◌, ◌*◌, ◌/◌, ◌%◌, ◌<◌, Bool, not, ◌&&◌, ◌||◌, Option, none, some, List, [], ◌∷◌,
  ◌++◌, ltb, ◌==◌, if◌then◌else◌, length, take, drop,
}
use morningstar_modbus_api.Prelude.Int.{ℤ, pos, pos_part, leb_ℤ}
use morningstar_modbus_api.Prelude.Text.{Text, text, strip, decode_ascii, hex}
use morningstar_modbus_api.Errors.{
  Result, ok, err, Error, value_error, protocol_error, unsupported_function, address_range,
  count_range, unexpected_function, byte_count_mismatch, identification_truncated,
  identification_header, object_header_truncated, object_value_truncated, trailing_bytes, ◌>>=◌,
  ◌>>◌, raise_if,
}

-- READ_DEVICE_IDENTIFICATION
abbrev pub read_device_identification : List ℕ
read_device_identification = 0x2B ∷ 0x0E ∷ 0x01 ∷ 0x00 ∷ []

-- struct.pack(">H", n) and its inverse over a run of words
abbrev pub pack_be16 : ℕ → List ℕ
pack_be16 n = n / 256 ∷ n % 256 ∷ []

abbrev pub pack_words : List ℕ → List ℕ
pack_words [] = []
pack_words (w ∷ ws) = w / 256 ∷ w % 256 ∷ pack_words ws

abbrev pub unpack_words : List ℕ → List ℕ
unpack_words (hi ∷ lo ∷ rest) = (hi * 256 + lo) ∷ unpack_words rest
unpack_words _ = []

unfoldable pub read_registers_pdu : ℕ → ℤ → ℤ → Result (List ℕ)
read_registers_pdu function_code address count = do
  raise_if (not (function_code == 0x03 || function_code == 0x04)) (value_error unsupported_function)
  raise_if (not (leb_ℤ (pos 0) address && leb_ℤ address (pos 0xFFFF))) (value_error address_range)
  raise_if (not (leb_ℤ (pos 1) count && leb_ℤ count (pos 125))) (value_error count_range)
  ok (function_code ∷ pack_be16 (pos_part address) ++ pack_be16 (pos_part count))

-- _request_shape: the address and the count of a register read, both or neither
unfoldable pub request_shape : List ℕ → Option (ℕ × ℕ)
request_shape (f ∷ a ∷ b ∷ c ∷ d ∷ rest) =
    if f == 0x03 || f == 0x04 then some (a * 256 + b, c * 256 + d) else none
request_shape _ = none

unfoldable pub parse_register_response : List ℕ → ℕ → ℕ → Result (List ℕ)
parse_register_response (f ∷ n ∷ body) function_code count = do
  raise_if (not (f == function_code)) (protocol_error unexpected_function)
  raise_if (not (n == count * 2) || not (length body == count * 2))
      (protocol_error byte_count_mismatch)
  ok (unpack_words body)
parse_register_response _ function_code count = err (protocol_error unexpected_function)

-- src/morningstar_modbus/domain/models.py
pub record DeviceIdentification : Type 0 where
  pub vendor_name : Text
  pub product_code : Text
  pub major_minor_revision : Text
  pub conformity_level : ℕ
  pub raw_objects : List (ℕ × Text)
  pub raw_pdu_hex : Text

unfoldable pub object_text : List ℕ → Text
object_text value = strip (decode_ascii value)

-- The loop over the objects. The bytes from `cursor` on stand for the cursor, and what is still
-- unread comes back with the objects.
unfoldable pub read_objects : ℕ → List ℕ → Result (List (ℕ × Text) × List ℕ)
unfolding object_text
read_objects zero rest = ok ([], rest)
read_objects (suc n) (object_id ∷ size ∷ body) =
    let later = read_objects n (drop size body) in
    if ltb (length body) size
    then err (protocol_error object_value_truncated)
    else (do found ← later; ok ((object_id, object_text (take size body)) ∷ found.0, found.1))
read_objects (suc n) _ = err (protocol_error object_header_truncated)

-- dict(objects).get(key): the last object of a key counts
abbrev pub find_object : ℕ → List (ℕ × Text) → Option Text
find_object key [] = none
find_object key ((k, v) ∷ rest) = elim (find_object key rest) [
  | some w ↦ some w
  | none ↦ if k == key then some v else none
]

abbrev pub object_or_empty : ℕ → List (ℕ × Text) → Text
object_or_empty key objects = elim (find_object key objects) [ some v ↦ v | none ↦ [] ]

abbrev pub identification : List ℕ → ℕ → List (ℕ × Text) × List ℕ → Result DeviceIdentification
identification pdu conformity (objects, []) = ok (record {
  vendor_name = object_or_empty 0x00 objects;
  product_code = object_or_empty 0x01 objects;
  major_minor_revision = object_or_empty 0x02 objects;
  conformity_level = conformity;
  raw_objects = objects;
  raw_pdu_hex = hex pdu;
})
identification pdu conformity (objects, b ∷ rest) = err (protocol_error trailing_bytes)

unfoldable pub parse_device_identification : List ℕ → Result DeviceIdentification
unfolding read_objects
parse_device_identification (h ∷ i ∷ j ∷ conformity ∷ m ∷ n ∷ object_count ∷ rest) = do
  raise_if (not (h == 0x2B && i == 0x0E && j == 0x01)) (protocol_error identification_header)
  found ← read_objects object_count rest
  identification (h ∷ i ∷ j ∷ conformity ∷ m ∷ n ∷ object_count ∷ rest) conformity found
parse_device_identification _ = err (protocol_error identification_truncated)
