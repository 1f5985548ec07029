-- ===== src/Intelligence/Validation/Tests.antt =====
-- Runs of the plausibility checks, and the theorems at them.
use morningstar_modbus_api.Prelude.{ℕ, ◌≡◌, ◌↔◌, refl, List, [], ◌∷◌, false}
use morningstar_modbus_api.Prelude.Text.{text}
use morningstar_modbus_api.Prelude.Int.{ℤ, pos, ◌-ℤ◌}
use morningstar_modbus_api.Prelude.Floats.{integers}
use morningstar_modbus_api.Intelligence.Validation.{
  finite, not_finite, other, RegisterValue, non_finite, implausible_value, named_registers,
  checks_failed, check_value, check_values, is_implausible, validate_values,
}
use morningstar_modbus_api.Intelligence.Validation.Issues.{
  issue, validate_values_lem, plausible_blamed,
}

abbrev battery : RegisterValue ℤ
battery = record { name = text "battery_voltage"; unit = text "V"; value = not_finite }

abbrev array : RegisterValue ℤ
array = record { name = text "array_voltage"; unit = text "V"; value = finite (pos 60) }

abbrev heatsink : RegisterValue ℤ
heatsink = record { name = text "heatsink_temperature"; unit = text "C"; value = finite (pos 900) }

abbrev serial : RegisterValue ℤ
serial = record { name = text "serial_number"; unit = []; value = other }

abbrev values : List (RegisterValue ℤ)
values = serial ∷ array ∷ heatsink ∷ []

abbrev one_value : ℕ
one_value = 1

validate_values_lem_example :
    ((validate_values integers values).0 ≡ named_registers ∷ checks_failed one_value ∷ [])
    × (((validate_values integers values).1 ≡ []) ↔ (one_value ≡ 0))
unfolding is_implausible ◌-ℤ◌
validate_values_lem_example = validate_values_lem integers values

heatsink_reported :
    (validate_values integers values).1
    ≡ issue integers implausible_value (text "heatsink_temperature") ∷ []
unfolding validate_values check_values check_value is_implausible ◌-ℤ◌
heatsink_reported = refl

array_within : is_implausible integers array (pos 60) ≡ false
unfolding is_implausible ◌-ℤ◌
array_within = refl

plausible_blamed_example :
    (validate_values integers (battery ∷ array ∷ [])).1
    ≡ issue integers non_finite (text "battery_voltage")
      ∷ issue integers implausible_value (text "array_voltage")
      ∷ []
plausible_blamed_example =
    plausible_blamed integers battery array (pos 60) refl refl refl refl array_within
