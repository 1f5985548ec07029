-- ===== src/Catalog/Families/SunsaverDuo.antt =====
-- The register table of src/morningstar_modbus/catalog/families/sunsaver_duo.py.
use morningstar_modbus_api.Prelude.{ℕ, false, none, some, List, [], ◌∷◌}
use morningstar_modbus_api.Prelude.Text.{Text, text}
use morningstar_modbus_api.Catalog.Types.{
  RegisterBlock, RegisterSpec, DeviceProfileSpec, holding_block, holding_register, telemetry, state,
  fault, configuration,
}

abbrev states : List (ℕ × Text)
states = (1, text "NORMAL") ∷ (3, text "NIGHT") ∷ (4, text "FAULT") ∷ []

abbrev faults : List (ℕ × Text)
faults =
    (0, text "reverse_polarity_solar")
    ∷ (1, text "reverse_polarity_battery_1")
    ∷ (2, text "reverse_polarity_battery_2")
    ∷ (3, text "local_temp_sensor_damaged")
    ∷ (4, text "rts_damaged_or_removed")
    ∷ (5, text "overcurrent")
    ∷ (6, text "high_temperature_disconnect")
    ∷ (7, text "hvd")
    ∷ []

abbrev flags : List (ℕ × Text)
flags =
    (0, text "internal_0")
    ∷ (1, text "internal_1")
    ∷ (2, text "internal_2")
    ∷ (3, text "regulation")
    ∷ (4, text "valid_rts")
    ∷ (5, text "alternating")
    ∷ (6, text "on_off_regulation")
    ∷ (7, text "started")
    ∷ []

abbrev pub sunsaver_duo_blocks : List RegisterBlock
sunsaver_duo_blocks =
    holding_block 0x0000 0x0010 telemetry false false
    ∷ holding_block 0x0106 0x0006 telemetry false false
    ∷ []

abbrev pub sunsaver_duo_registers : List RegisterSpec
sunsaver_duo_registers =
    holding_register (text "battery_1_voltage") 0x0000 1 (text "udivide:1800") (some (text "V"))
      telemetry [] []
    ∷ holding_register (text "battery_2_voltage") 0x0001 1 (text "udivide:1800") (some (text "V"))
        telemetry [] []
    ∷ holding_register (text "array_voltage") 0x0002 1 (text "udivide:1032") (some (text "V"))
        telemetry [] []
    ∷ holding_register (text "array_current_1") 0x0003 1 (text "udivide:673") (some (text "A"))
        telemetry [] []
    ∷ holding_register (text "array_current_2") 0x0004 1 (text "udivide:673") (some (text "A"))
        telemetry [] []
    ∷ holding_register (text "target_voltage_1") 0x0008 1 (text "udivide:1800") (some (text "V"))
        telemetry [] []
    ∷ holding_register (text "target_voltage_2") 0x0009 1 (text "udivide:1800") (some (text "V"))
        telemetry [] []
    ∷ holding_register (text "duty_cycle_1") 0x000A 1 (text "percent:417") (some (text "%"))
        telemetry [] []
    ∷ holding_register (text "duty_cycle_2") 0x000B 1 (text "percent:417") (some (text "%"))
        telemetry [] []
    ∷ holding_register (text "duty_cycle_1_control") 0x0106 1 (text "percent:417") (some (text "%"))
        telemetry [] []
    ∷ holding_register (text "duty_cycle_2_control") 0x0107 1 (text "percent:417") (some (text "%"))
        telemetry [] []
    ∷ holding_register (text "state") 0x0108 1 (text "raw") none state states []
    ∷ holding_register (text "faults") 0x0109 1 (text "raw") none fault [] faults
    ∷ holding_register (text "flags") 0x010A 1 (text "raw") none state [] flags
    ∷ holding_register (text "dip_switch") 0x010B 1 (text "raw") none configuration [] []
    ∷ []

abbrev pub sunsaver_duo : DeviceProfileSpec
sunsaver_duo = record {
  name = text "sunsaver_duo";
  family = text "SunSaver Duo";
  aliases = text "sunsaver duo" ∷ text "ssd" ∷ text "sunsaverduo" ∷ [];
  source_id = text "sunsaver-duo-modbus-v04";
  blocks = sunsaver_duo_blocks;
  registers = sunsaver_duo_registers;
  capabilities =
      text "rtu"
      ∷ text "meterbus"
      ∷ text "dual_battery"
      ∷ text "charge"
      ∷ text "device_identification"
      ∷ [];
  detection_priority = 70;
  catalog_revision = text "";
  firmware_verified_max = none;
}
