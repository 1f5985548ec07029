-- ===== src/Intelligence/Resolver/Tests.antt =====
-- Confidence and with_voltage intelligence at concrete values.
use morningstar_modbus_api.Prelude.{◌≡◌, refl, true, some, none, List, [], ◌∷◌}
use morningstar_modbus_api.Prelude.Text.{text}
use morningstar_modbus_api.Prelude.Int.{pos_part}
use morningstar_modbus_api.Prelude.Floats.{Floats, hundredths}
use morningstar_modbus_api.Errors.{ok}
use morningstar_modbus_api.Catalog.Types.{holding}
use morningstar_modbus_api.Catalog.Decode.{RegisterFloats, real}
use morningstar_modbus_api.Catalog.Derived.{RegisterValue}
use morningstar_modbus_api.Catalog.Registry.{get_profile}
use morningstar_modbus_api.Intelligence.Validation.{
  validate_values, check_values, check_value, is_implausible,
}
use morningstar_modbus_api.Intelligence.Resolver
use morningstar_modbus_api.Intelligence.Resolver.{
  DeviceIntelligence, IntelligenceEvidence, vendor_matched, registers_decoded,
  telemetry_plausibility, score, status_of, is_newer, negotiate_capabilities, refresh_intelligence,
}
use morningstar_modbus_api.Intelligence.Resolver.Refresh.{refresh_intelligence-twice}

abbrev heavy : List (IntelligenceEvidence (Floats.Real hundredths))
heavy = record { code = vendor_matched; weight = 250; passed = true } ∷ []

cut_off : score hundredths heavy ≡ 100
unfolding score
cut_off = refl

abbrev registers : RegisterFloats hundredths
registers = record {
  float16 = λ n. n;
  unpack_float32 = λ high low. high;
  parse = λ s. ok 100;
  of_ℤ = λ z. pos_part z;
}

abbrev relay : DeviceIntelligence (Floats.Real hundredths)
relay = record {
  profile = text "relay_driver";
  family = [];
  model = [];
  serial_number = [];
  firmware = [];
  hardware_revision = [];
  catalog_revision = [];
  confidence = 28;
  status = Resolver.family_only;
  capabilities = [];
  evidence = record { code = vendor_matched; weight = 28; passed = true } ∷ [];
  warnings = [];
  metadata = [];
}

abbrev voltage : RegisterValue (Floats.Real hundredths)
voltage = record {
  name = text "battery_sense_voltage";
  address = 0;
  function = holding;
  raw = [];
  value = real 1200;
  unit = some (text "V");
}

abbrev with_voltage : DeviceIntelligence (Floats.Real hundredths)
with_voltage = record relay {
  confidence = 48;
  capabilities =
      text "analog_inputs"
      ∷ text "battery_voltage_sense"
      ∷ text "relay_outputs"
      ∷ text "rs232"
      ∷ text "rtu"
      ∷ [];
  evidence =
      record { code = vendor_matched; weight = 28; passed = true }
      ∷ record { code = registers_decoded; weight = 8; passed = true }
      ∷ record { code = telemetry_plausibility; weight = 12; passed = true }
      ∷ [];
}

refresh_intelligence-twice_example :
    refresh_intelligence hundredths registers (λ x. true) (λ x. []) with_voltage (voltage ∷ []) none
    ≡ ok with_voltage
unfolding refresh_intelligence get_profile validate_values check_values check_value is_implausible
    score status_of is_newer negotiate_capabilities
refresh_intelligence-twice_example =
    refresh_intelligence-twice hundredths registers (λ x. true) (λ x. []) relay with_voltage
      (voltage ∷ []) none refl
