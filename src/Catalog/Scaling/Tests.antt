-- ===== src/Catalog/Scaling/Tests.antt =====
-- Runs of the register decoders, and their theorems at them.
use morningstar_modbus_api.Prelude.{◌≡◌, refl, [], ◌∷◌}
use morningstar_modbus_api.Prelude.Text.{text}
use morningstar_modbus_api.Prelude.Int.{negsuc}
use morningstar_modbus_api.Errors.{ok}
use morningstar_modbus_api.Catalog.Compatibility.{written, version_tuple}
use morningstar_modbus_api.Catalog.Scaling.{
  unsigned_32, signed_32, bcd_integer, bcd_loop, decimal, decimal_digits, byte_pair_version,
  ascii_high_low, high_low_bytes,
}
use morningstar_modbus_api.Catalog.Scaling.Versions.{version_tuple-byte_pair_version}

minus_two : signed_32 (0xFFFF ∷ 0xFFFE ∷ []) ≡ ok (negsuc 1)
unfolding signed_32 unsigned_32
minus_two = refl

not_decimal : bcd_integer 0x1A42 ≡ 0x1A42
unfolding bcd_integer bcd_loop
not_decimal = refl

version_tuple-byte_pair_version_example :
    version_tuple (written (byte_pair_version 0x130C)) ≡ 19 ∷ 12 ∷ []
version_tuple-byte_pair_version_example = version_tuple-byte_pair_version 0x130C

printed_version : byte_pair_version 0x130C ≡ text "19.12"
unfolding byte_pair_version decimal decimal_digits
printed_version = refl

model_name : ascii_high_low (0x5453 ∷ 0x2D36 ∷ 0x3000 ∷ []) ≡ text "TS-60"
unfolding ascii_high_low high_low_bytes
model_name = refl
