-- ===== src/Catalog/Families/Tests.antt =====
-- The theorems on the register tables at concrete floats and words.
use morningstar_modbus_api.Prelude.{refl, All}
use morningstar_modbus_api.Prelude.Int.{pos}
use morningstar_modbus_api.Prelude.Floats.{integers}
use morningstar_modbus_api.Errors.{ok}
use morningstar_modbus_api.Catalog.Types.{DeviceProfileSpec}
use morningstar_modbus_api.Catalog.Decode.{RegisterFloats}
use morningstar_modbus_api.Catalog.Decode.Accepts.{ReadsNumerals}
use morningstar_modbus_api.Catalog.Families.Decodes.{catalog, Decodes, catalog-Decodes}

-- Only whole numbers, and every numeral is read as 10.
abbrev registers : RegisterFloats integers
registers = record {
  float16 = pos;
  unpack_float32 = λ high low. pos high;
  parse = λ s. ok (pos 10);
  of_ℤ = λ z. z;
}

reads : ReadsNumerals integers registers
reads s h = (pos 10, refl, refl)

catalog-Decodes_example :
    All (λ spec. All (Decodes integers registers) (DeviceProfileSpec.registers spec)) catalog
catalog-Decodes_example = catalog-Decodes integers registers reads
