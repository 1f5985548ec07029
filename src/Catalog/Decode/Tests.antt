-- ===== src/Catalog/Decode/Tests.antt =====
-- Runs of decode_value.
use morningstar_modbus_api.Prelude.{ℕ, ◌≡◌, refl, List, [], ◌∷◌}
use morningstar_modbus_api.Prelude.Text.{text}
use morningstar_modbus_api.Prelude.Int.{pos, negsuc, ◌+ℤ◌}
use morningstar_modbus_api.Prelude.Floats.{integers}
use morningstar_modbus_api.Errors.{ok, err, value_error, decoder_words, unknown_decoder}
use morningstar_modbus_api.Catalog.Scaling.{signed_16, bcd_integer, bcd_loop}
use morningstar_modbus_api.Catalog.Decode.{
  RegisterFloats, real, integer, decode_value, fixed_point_scale, decode_ts600,
}

-- Only whole numbers, which serves for the decoders that are run here.
abbrev registers : RegisterFloats integers
registers = record {
  float16 = pos;
  unpack_float32 = λ high low. pos high;
  parse = λ s. ok (pos 10);
  of_ℤ = λ z. z;
}

abbrev context : List (ℕ × ℕ)
context = (0, 180) ∷ (1, 0) ∷ (4, 0x18) ∷ []

minus_one :
    decode_value integers registers (text "s16") (0xFFFF ∷ []) context ≡ ok (integer (negsuc 0))
unfolding decode_value signed_16
minus_one = refl

voltage :
    decode_value integers registers (text "tristar_voltage") (0x4000 ∷ []) context
    ≡ ok (real (pos 90))
unfolding decode_value signed_16 fixed_point_scale ◌+ℤ◌
voltage = refl

-- Below firmware 19 the registers of a TS-600 are scaled.
old_firmware :
    decode_value integers registers (text "ts600_voltage") (0x4000 ∷ []) context
    ≡ ok (real (pos 90))
unfolding decode_value decode_ts600 signed_16 fixed_point_scale bcd_integer bcd_loop ◌+ℤ◌
old_firmware = refl

too_few_words :
    decode_value integers registers (text "u32") (1 ∷ []) context ≡ err (value_error decoder_words)
unfolding decode_value
too_few_words = refl

misspelt :
    decode_value integers registers (text "s-16") (1 ∷ []) context
    ≡ err (value_error unknown_decoder)
unfolding decode_value
misspelt = refl
