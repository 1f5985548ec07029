-- ===== src/Protocol/Codec/Tests.antt =====
-- Runs of the codec at concrete frames, and its theorems at them.
use morningstar_modbus_api.Prelude.{ℕ, ◌↔◌, ◌≡◌, refl, List, [], ◌∷◌, arith, length}
use morningstar_modbus_api.Prelude.Int.{pos, negsuc}
use morningstar_modbus_api.Prelude.Text.{text}
use morningstar_modbus_api.Errors.{
  ok, err, value_error, protocol_error, address_range, trailing_bytes,
}
use morningstar_modbus_api.Protocol.Codec.{
  read_registers_pdu, parse_register_response, parse_device_identification, DeviceIdentification,
}
use morningstar_modbus_api.Protocol.Codec.Words.{IsWords}
use morningstar_modbus_api.Protocol.Codec.Requests.{IsLegal, Carries, read_registers_pdu_iff}
use morningstar_modbus_api.Protocol.Codec.Responses.{register_response, parse_register_response_iff}
use morningstar_modbus_api.Protocol.Codec.Identification.{
  Identifies, parse_device_identification_iff,
}

read_request : read_registers_pdu 3 (pos 8) (pos 45) ≡ ok (3 ∷ 0 ∷ 8 ∷ 0 ∷ 45 ∷ [])
unfolding read_registers_pdu
read_request = refl

negative_address : read_registers_pdu 3 (negsuc 0) (pos 1) ≡ err (value_error address_range)
unfolding read_registers_pdu
negative_address = refl

two_words : parse_register_response (3 ∷ 4 ∷ 1 ∷ 2 ∷ 3 ∷ 4 ∷ []) 3 2 ≡ ok (0x0102 ∷ 0x0304 ∷ [])
unfolding parse_register_response
two_words = refl

abbrev vendor_response : List ℕ
vendor_response =
    0x2B ∷ 0x0E ∷ 1 ∷ 0x81 ∷ 0 ∷ 0 ∷ 2 ∷ 0 ∷ 3 ∷ 0x4D ∷ 0x43 ∷ 0x20 ∷ 1 ∷ 1 ∷ 0xFF ∷ []

abbrev vendor_identification : DeviceIdentification
vendor_identification = record {
  vendor_name = text "MC";
  product_code = 0xFFFD ∷ [];
  major_minor_revision = [];
  conformity_level = 0x81;
  raw_objects = (0, text "MC") ∷ (1, 0xFFFD ∷ []) ∷ [];
  raw_pdu_hex = text "2b0e018100000200034d43200101ff";
}

vendor_parses : parse_device_identification vendor_response ≡ ok vendor_identification
unfolding parse_device_identification
vendor_parses = refl

vendor_trailing :
    parse_device_identification (0x2B ∷ 0x0E ∷ 1 ∷ 0x81 ∷ 0 ∷ 0 ∷ 0 ∷ 9 ∷ [])
    ≡ err (protocol_error trailing_bytes)
unfolding parse_device_identification
vendor_trailing = refl

read_registers_pdu_iff_example :
    ((read_registers_pdu 3 (pos 8) (pos 45) ≡ ok (3 ∷ 0 ∷ 8 ∷ 0 ∷ 45 ∷ []))
      → IsLegal 3 (pos 8) (pos 45) × Carries 3 (pos 8) (pos 45) (3 ∷ 0 ∷ 8 ∷ 0 ∷ 45 ∷ []))
    × (IsLegal 3 (pos 8) (pos 45)
        → (p : List ℕ) × (read_registers_pdu 3 (pos 8) (pos 45) ≡ ok p)
          × Carries 3 (pos 8) (pos 45) p)
read_registers_pdu_iff_example = read_registers_pdu_iff 3 (pos 8) (pos 45) (3 ∷ 0 ∷ 8 ∷ 0 ∷ 45 ∷ [])

parse_register_response_iff_example :
    (parse_register_response (3 ∷ 4 ∷ 1 ∷ 2 ∷ 3 ∷ 4 ∷ []) 3 2 ≡ ok (0x0102 ∷ 0x0304 ∷ [])) ↔ (
      IsWords (0x0102 ∷ 0x0304 ∷ [])
      × (length {A = ℕ} (0x0102 ∷ 0x0304 ∷ []) ≡ 2)
      × (3 ∷ 4 ∷ 1 ∷ 2 ∷ 3 ∷ 4 ∷ [] ≡ register_response 3 (0x0102 ∷ 0x0304 ∷ [])))
parse_register_response_iff_example =
    parse_register_response_iff (3 ∷ 4 ∷ 1 ∷ 2 ∷ 3 ∷ 4 ∷ []) 3 2 (0x0102 ∷ 0x0304 ∷ [])
      (omega arith)

parse_device_identification_iff_example :
    (parse_device_identification vendor_response ≡ ok vendor_identification)
    ↔ Identifies vendor_response vendor_identification
parse_device_identification_iff_example =
    parse_device_identification_iff vendor_response vendor_identification
