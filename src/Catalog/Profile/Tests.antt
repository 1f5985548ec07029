-- ===== src/Catalog/Profile/Tests.antt =====
-- A profile on a device that holds its addresses as words.
use morningstar_modbus_api.Prelude.{
  ℕ, zero, suc, ◌+◌, ◌≡◌, refl, true, false, List, [], ◌∷◌, all, All, length, arith, subst,
}
use morningstar_modbus_api.Prelude.Text.{Text, text}
use morningstar_modbus_api.Prelude.Int.{pos, negsuc}
use morningstar_modbus_api.Prelude.Floats.{integers, Floats}
use morningstar_modbus_api.Errors.{ok, ok-injective}
use morningstar_modbus_api.Catalog.Types.{
  telemetry, RegisterBlock, DeviceProfileSpec, holding_block, metadata,
}
use morningstar_modbus_api.Catalog.Compatibility.{absent}
use morningstar_modbus_api.Catalog.Decode.{RegisterFloats, integer, string}
use morningstar_modbus_api.Catalog.Decode.Accepts.{ReadsNumerals}
use morningstar_modbus_api.Catalog.Scaling.{decimal, decimal_digits}
use morningstar_modbus_api.Catalog.Families.TristarPwm.{tristar_pwm}
use morningstar_modbus_api.Catalog.Derived.{RegisterValue}
use morningstar_modbus_api.Catalog.Naming.{name_value, hex_address}
use morningstar_modbus_api.Catalog.Profile.{CatalogProfile, Profile, load_metadata, poll}
use morningstar_modbus_api.Catalog.Profile.Coherent.{IsCoherent, poll-IsCoherent}
use morningstar_modbus_api.Catalog.Profile.Loads.{ReadsBlock}
use morningstar_modbus_api.Catalog.Profile.Reports.{reports, is_required}
use morningstar_modbus_api.Catalog.Profile.Polls.{poll-reports}
use morningstar_modbus_api.Transports.Client.{ReadOnlyModbusClient, AnswersInFull}

abbrev addresses : ℕ → ℕ → List ℕ
addresses from zero = []
addresses from (suc count) = from ∷ addresses (from + 1) count

length-addresses : (from count : ℕ) → length (addresses from count) ≡ count
length-addresses from zero = refl
length-addresses from (suc count) = omega (arith, length-addresses (from + 1) count)

-- It counts the reads.
abbrev device : ReadOnlyModbusClient
device = record { State = ℕ; read = λ f address count n. (ok (addresses address count), n + 1) }

device-AnswersInFull : AnswersInFull device
device-AnswersInFull f address count s words h =
    subst (λ ws. length ws ≡ count) (ok-injective (addresses address count) words h)
      (length-addresses address count)

abbrev registers : RegisterFloats integers
registers = record {
  float16 = pos;
  unpack_float32 = λ high low. pos high;
  parse = λ s. ok (pos 10);
  of_ℤ = λ z. z;
}

numerals : ReadsNumerals integers registers
numerals s h = (pos 10, refl, refl)

abbrev show : Floats.Real integers → Text
show x = []

abbrev fresh : Profile device
fresh = record { metadata = []; cached_blocks = []; client = 0 }

reads_all : (blocks : List RegisterBlock) → All (ReadsBlock device) blocks
reads_all [] = tt
reads_all (b ∷ blocks) = (λ m s. (addresses b.address b.count, refl), reads_all blocks)

poll-reports_example :
    (values : List (RegisterValue (Floats.Real integers))) × ((poll integers registers device show
        tristar_pwm absent fresh).0
      ≡ ok values)
    × (all
          (reports integers registers (is_required (DeviceProfileSpec.blocks tristar_pwm)) values)
          (DeviceProfileSpec.registers tristar_pwm)
        ≡ true)
poll-reports_example =
    poll-reports integers registers device device-AnswersInFull numerals show tristar_pwm refl refl
      (reads_all (DeviceProfileSpec.blocks tristar_pwm)) absent fresh tt

poll-IsCoherent_example :
    IsCoherent (poll integers registers device show tristar_pwm absent fresh).1
poll-IsCoherent_example =
    poll-IsCoherent device device-AnswersInFull integers registers show tristar_pwm absent fresh tt

-- Two blocks of metadata.
abbrev cached_spec : DeviceProfileSpec
cached_spec = record tristar_pwm {
  blocks =
      holding_block 0x10 2 metadata false true
      ∷ holding_block 0x20 1 metadata false true
      ∷ holding_block 0 4 telemetry false false
      ∷ [];
}

abbrev loaded : Profile device
loaded = (load_metadata device cached_spec fresh).1

two_reads : CatalogProfile.client loaded ≡ 2
unfolding load_metadata
two_reads = refl

unknown_value :
    name_value {Real = ℕ} ((0, text "OFF") ∷ (1, text "ON") ∷ []) [] (integer (negsuc 0))
    ≡ string (text "UNKNOWN_-1")
unfolding name_value decimal decimal_digits
unknown_value = refl

two_bits :
    name_value {Real = ℕ} []
      ((0, text "LOW") ∷ (1, text "MID") ∷ (15, text "HIGH") ∷ [])
      (integer (pos 0x8001))
    ≡ string (text "LOW,HIGH")
unfolding name_value
two_bits = refl

padded : hex_address 0x3B ≡ text "003B"
padded = refl
