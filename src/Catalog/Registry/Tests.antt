-- ===== src/Catalog/Registry/Tests.antt =====
-- Names and the profiles that they select.
use morningstar_modbus_api.Prelude.{ℕ, ◌+◌, ◌≡◌, ◌++◌, refl, true, [], all}
use morningstar_modbus_api.Prelude.Text.{text, text_eq}
use morningstar_modbus_api.Prelude.Floats.{integers}
use morningstar_modbus_api.Errors.{ok, err, timeout_error}
use morningstar_modbus_api.Catalog.Types.{DeviceProfileSpec}
use morningstar_modbus_api.Catalog.Registry.{
  generic, profiles, registered, select_spec, normalize, names, is_explicit_non_morningstar_vendor,
  detect_profile,
}
use morningstar_modbus_api.Catalog.Registry.Selects.{IsChoice, IsForeign, select_spec_lem}
use morningstar_modbus_api.Transports.Client.{ReadOnlyModbusClient}

-- Every alias selects its own profile.
own_aliases :
    all
      (λ spec.
        all
          (λ alias.
            text_eq
              (DeviceProfileSpec.name (select_spec (text "Morningstar Corp.") alias))
              (DeviceProfileSpec.name spec))
          (DeviceProfileSpec.aliases spec))
      profiles
    ≡ true
unfolding select_spec normalize names is_explicit_non_morningstar_vendor
own_aliases = refl

-- A client whose state says how many reads there were, and that answers none.
abbrev silent : ReadOnlyModbusClient
silent = record { State = ℕ; read = λ f address count n. (err timeout_error, n + 1) }

select_spec_lem_example :
    (IsForeign (text "Morningstar Corp.")
      → select_spec (text "Morningstar Corp.") (text "TS-MPPT-60-600V") ≡ generic)
    × ((¬ IsForeign (text "Morningstar Corp."))
        → IsChoice
            (normalize (text "Morningstar Corp." ++ text " " ++ text "TS-MPPT-60-600V"))
            (normalize (text "TS-MPPT-60-600V"))
            registered
            (select_spec (text "Morningstar Corp.") (text "TS-MPPT-60-600V")))
select_spec_lem_example = select_spec_lem (text "Morningstar Corp.") (text "TS-MPPT-60-600V")

-- Every probe is tried.
probed_four_times : detect_profile integers silent (text "Morningstar Corp.") [] 0 ≡ (ok generic, 4)
unfolding detect_profile select_spec normalize names is_explicit_non_morningstar_vendor
probed_four_times = refl
