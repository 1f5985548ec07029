-- ===== src/Catalog/Registry/Detects.antt =====
-- What the detection comes to (src/morningstar_modbus/catalog/registry.py).
use morningstar_modbus_api.Prelude.{ℕ, ◌≡◌, Bool, true, false, List}
use morningstar_modbus_api.Prelude.Text.{Text, text, text_eq}
use morningstar_modbus_api.Prelude.Floats.{Floats}
use morningstar_modbus_api.Errors.{ok}
use morningstar_modbus_api.Actions.{Action}
use morningstar_modbus_api.Catalog.Types.{holding, DeviceProfileSpec}
use morningstar_modbus_api.Catalog.Families.TristarPwm.{tristar_pwm}
use morningstar_modbus_api.Catalog.Families.SunsaverDuo.{sunsaver_duo}
use morningstar_modbus_api.Catalog.Families.SuresineClassic.{suresine_classic}
use morningstar_modbus_api.Catalog.Families.SuresineGen2.{suresine_gen2}
use morningstar_modbus_api.Catalog.Registry.{
  select_spec, is_explicit_non_morningstar_vendor, is_suresine_gen2, is_suresine_classic,
  is_sunsaver_duo, is_tristar_pwm,
}
use morningstar_modbus_api.Transports.Client.{ReadOnlyModbusClient}

module _ (F : Floats) (C : ReadOnlyModbusClient) where
  -- A read of these registers returned words with the fingerprint.
  abbrev pub Fitted : ℕ → ℕ → (List ℕ → Bool) → Type 0
  Fitted address count fingerprint =
      (s : C.State) × (words : List ℕ) × ((C.read holding address count s).0 ≡ ok words)
      × (fingerprint words ≡ true)

  -- The device names no profile, and no other vendor.
  abbrev pub IsUnnamed : Text → Text → Type 0
  IsUnnamed vendor_name product_code =
      (text_eq (DeviceProfileSpec.name (select_spec vendor_name product_code)) (text "generic")
        ≡ true)
      × (is_explicit_non_morningstar_vendor vendor_name ≡ false)

  -- Why a device gets a profile: by its names, or, if they tell nothing, by the words that the
  -- registers of a SureSine, a SunSaver Duo or a TriStar answered with.
  pub data Reason (vendor_name product_code : Text) : DeviceProfileSpec → Type 0 where
    by_names : Reason vendor_name product_code (select_spec vendor_name product_code)
    by_inverter :
        IsUnnamed vendor_name product_code
        → Fitted 0x0003 4 (is_suresine_gen2 F)
        → Reason vendor_name product_code suresine_gen2
    by_classic_inverter :
        IsUnnamed vendor_name product_code
        → Fitted 0x000D 2 (is_suresine_classic F)
        → Reason vendor_name product_code suresine_classic
    by_duo :
        IsUnnamed vendor_name product_code
        → Fitted 0x0106 6 (is_sunsaver_duo F)
        → Reason vendor_name product_code sunsaver_duo
    by_mode :
        IsUnnamed vendor_name product_code
        → Fitted 0x001A 2 (is_tristar_pwm F)
        → Reason vendor_name product_code tristar_pwm

  module _ (vendor_name product_code : Text) where
    -- The action returns a profile for a reason, whatever the state.
    abbrev Answers : Action C.State DeviceProfileSpec → Type 0
    Answers m =
        (s : C.State)
        → (spec : DeviceProfileSpec) × ((m s).0 ≡ ok spec) × Reason vendor_name product_code spec
