-- ===== src/Catalog/Families/SunsaverMppt.antt =====
-- The register table of src/morningstar_modbus/catalog/families/sunsaver_mppt.py.
use morningstar_modbus_api.Prelude.{ℕ, false, none, some, List, [], ◌∷◌}
use morningstar_modbus_api.Prelude.Text.{Text, text}
use morningstar_modbus_api.Catalog.Types.{
  RegisterBlock, RegisterSpec, DeviceProfileSpec, holding_block, holding_register, telemetry, state,
  fault, alarm, configuration,
}
use morningstar_modbus_api.Catalog.Families.Common.{
  load_faults, load_states, pwm_charge_states, sunsaver_mppt_alarms,
}

abbrev array_faults : List (ℕ × Text)
array_faults =
    (0, text "overcurrent")
    ∷ (1, text "fet_shorted")
    ∷ (2, text "software")
    ∷ (3, text "battery_hvd")
    ∷ (4, text "array_hvd")
    ∷ (5, text "eeprom_edit")
    ∷ (6, text "rts_shorted")
    ∷ (7, text "rts_disconnected")
    ∷ (8, text "local_temp_sensor_failed")
    ∷ []

abbrev pub sunsaver_mppt_blocks : List RegisterBlock
sunsaver_mppt_blocks = holding_block 0x0008 0x0033 telemetry false false ∷ []

abbrev pub sunsaver_mppt_registers : List RegisterSpec
sunsaver_mppt_registers =
    holding_register (text "battery_voltage") 0x0008 1 (text "factor:0.0030517578125")
      (some (text "V")) telemetry [] []
    ∷ holding_register (text "array_voltage") 0x0009 1 (text "factor:0.0030517578125")
        (some (text "V")) telemetry [] []
    ∷ holding_register (text "load_voltage") 0x000A 1 (text "factor:0.0030517578125")
        (some (text "V")) telemetry [] []
    ∷ holding_register (text "charge_current") 0x000B 1 (text "factor:0.0024169921875")
        (some (text "A")) telemetry [] []
    ∷ holding_register (text "load_current") 0x000C 1 (text "factor:0.0024169921875")
        (some (text "A")) telemetry [] []
    ∷ holding_register (text "heatsink_temp") 0x000D 1 (text "s16") (some (text "C")) telemetry []
        []
    ∷ holding_register (text "battery_temp") 0x000E 1 (text "s16") (some (text "C")) telemetry [] []
    ∷ holding_register (text "ambient_temp") 0x000F 1 (text "s16") (some (text "C")) telemetry [] []
    ∷ holding_register (text "rts_temp") 0x0010 1 (text "s16") (some (text "C")) telemetry [] []
    ∷ holding_register (text "charge_state") 0x0011 1 (text "raw") none state pwm_charge_states []
    ∷ holding_register (text "array_faults") 0x0012 1 (text "raw") none fault [] array_faults
    ∷ holding_register (text "battery_voltage_slow") 0x0013 1 (text "factor:0.0030517578125")
        (some (text "V")) telemetry [] []
    ∷ holding_register (text "target_voltage") 0x0014 1 (text "factor:0.002950897216796875")
        (some (text "V")) telemetry [] []
    ∷ holding_register (text "load_state") 0x001A 1 (text "raw") none state load_states []
    ∷ holding_register (text "load_faults") 0x001B 1 (text "raw") none fault [] load_faults
    ∷ holding_register (text "hourmeter") 0x0021 2 (text "u32") (some (text "h")) telemetry [] []
    ∷ holding_register (text "alarms") 0x0023 2 (text "u32") none alarm [] sunsaver_mppt_alarms
    ∷ holding_register (text "dip_switch") 0x0025 1 (text "raw") none configuration [] []
    ∷ holding_register (text "led_state") 0x0026 1 (text "raw") none state [] []
    ∷ holding_register (text "output_power") 0x0027 1 (text "ufactor:0.01509857177734375")
        (some (text "W")) telemetry [] []
    ∷ holding_register (text "vmp") 0x0028 1 (text "factor:0.0030517578125") (some (text "V"))
        telemetry [] []
    ∷ holding_register (text "pmax") 0x0029 1 (text "ufactor:0.01509857177734375") (some (text "W"))
        telemetry [] []
    ∷ holding_register (text "voc") 0x002A 1 (text "factor:0.0030517578125") (some (text "V"))
        telemetry [] []
    ∷ holding_register (text "lighting_should_be_on") 0x0038 1 (text "raw") none state [] []
    ∷ holding_register (text "fixed_vmp") 0x0039 1 (text "factor:0.0030517578125") (some (text "V"))
        telemetry [] []
    ∷ holding_register (text "fixed_vmp_percent") 0x003A 1 (text "percent:255") (some (text "%"))
        telemetry [] []
    ∷ []

abbrev pub sunsaver_mppt : DeviceProfileSpec
sunsaver_mppt = record {
  name = text "sunsaver_mppt";
  family = text "SunSaver MPPT";
  aliases = text "sunsaver mppt" ∷ text "ss-mppt" ∷ text "ssmppt" ∷ [];
  source_id = text "sunsaver-mppt-modbus-v11";
  blocks = sunsaver_mppt_blocks;
  registers = sunsaver_mppt_registers;
  capabilities =
      text "rtu"
      ∷ text "meterbus"
      ∷ text "charge"
      ∷ text "load"
      ∷ text "lighting"
      ∷ text "device_identification"
      ∷ [];
  detection_priority = 60;
  catalog_revision = text "";
  firmware_verified_max = none;
}
