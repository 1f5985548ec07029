-- ===== src/Catalog/Families/ProstarPwm.antt =====
-- The register table of src/morningstar_modbus/catalog/families/prostar_pwm.py.
use morningstar_modbus_api.Prelude.{ℕ, false, none, some, List, [], ◌∷◌}
use morningstar_modbus_api.Prelude.Text.{Text, text}
use morningstar_modbus_api.Catalog.Types.{
  RegisterBlock, RegisterSpec, DeviceProfileSpec, holding_block, holding_register, telemetry, state,
  fault, alarm, metadata, configuration,
}
use morningstar_modbus_api.Catalog.Families.Common.{
  load_faults, load_states, prostar_alarms, pwm_charge_states,
}

abbrev array_faults : List (ℕ × Text)
array_faults =
    (0, text "overcurrent_phase_1")
    ∷ (1, text "fet_shorted")
    ∷ (2, text "software")
    ∷ (3, text "battery_hvd")
    ∷ (4, text "array_hvd")
    ∷ (5, text "eeprom_edit")
    ∷ (6, text "rts_shorted")
    ∷ (7, text "rts_disconnected")
    ∷ (8, text "local_temp_sensor_failed")
    ∷ (9, text "battery_lvd")
    ∷ (10, text "dip_changed")
    ∷ (11, text "processor_supply_fault")
    ∷ []

abbrev pub prostar_pwm_blocks : List RegisterBlock
prostar_pwm_blocks = holding_block 0x0000 0x004D telemetry false false ∷ []

abbrev pub prostar_pwm_registers : List RegisterSpec
prostar_pwm_registers =
    holding_register (text "firmware_version") 0x0000 1 (text "raw") none metadata [] []
    ∷ holding_register (text "system_voltage_multiplier") 0x0001 1 (text "raw") none metadata [] []
    ∷ holding_register (text "charge_current") 0x0010 1 (text "f16") (some (text "A")) telemetry []
        []
    ∷ holding_register (text "array_current") 0x0011 1 (text "f16") (some (text "A")) telemetry []
        []
    ∷ holding_register (text "battery_terminal_voltage") 0x0012 1 (text "f16") (some (text "V"))
        telemetry [] []
    ∷ holding_register (text "array_voltage") 0x0013 1 (text "f16") (some (text "V")) telemetry []
        []
    ∷ holding_register (text "load_voltage") 0x0014 1 (text "f16") (some (text "V")) telemetry [] []
    ∷ holding_register (text "battery_net_current") 0x0015 1 (text "f16") (some (text "A"))
        telemetry [] []
    ∷ holding_register (text "load_current") 0x0016 1 (text "f16") (some (text "A")) telemetry [] []
    ∷ holding_register (text "battery_sense_voltage") 0x0017 1 (text "f16") (some (text "V"))
        telemetry [] []
    ∷ holding_register (text "heatsink_temp") 0x001A 1 (text "f16") (some (text "C")) telemetry []
        []
    ∷ holding_register (text "battery_temp") 0x001B 1 (text "f16") (some (text "C")) telemetry [] []
    ∷ holding_register (text "ambient_temp") 0x001C 1 (text "f16") (some (text "C")) telemetry [] []
    ∷ holding_register (text "rts_temp") 0x001D 1 (text "f16") (some (text "C")) telemetry [] []
    ∷ holding_register (text "charge_state") 0x0021 1 (text "raw") none state pwm_charge_states []
    ∷ holding_register (text "array_faults") 0x0022 1 (text "raw") none fault [] array_faults
    ∷ holding_register (text "load_state") 0x002E 1 (text "raw") none state load_states []
    ∷ holding_register (text "load_faults") 0x002F 1 (text "raw") none fault [] load_faults
    ∷ holding_register (text "hourmeter") 0x0036 2 (text "u32") (some (text "h")) telemetry [] []
    ∷ holding_register (text "alarms") 0x0038 2 (text "u32") none alarm [] prostar_alarms
    ∷ holding_register (text "dip_switch") 0x003A 1 (text "raw") none configuration [] []
    ∷ holding_register (text "led_state") 0x003B 1 (text "raw") none state [] []
    ∷ []

abbrev pub prostar_pwm : DeviceProfileSpec
prostar_pwm = record {
  name = text "prostar_pwm";
  family = text "ProStar PWM Gen3";
  aliases = text "prostar pwm" ∷ text "ps-pwm" ∷ text "prostar gen3" ∷ text "prostar" ∷ [];
  source_id = text "prostar-pwm-modbus-v2";
  blocks = prostar_pwm_blocks;
  registers = prostar_pwm_registers;
  capabilities =
      text "rtu"
      ∷ text "meterbus"
      ∷ text "charge"
      ∷ text "load"
      ∷ text "lighting"
      ∷ text "device_identification"
      ∷ [];
  detection_priority = 50;
  catalog_revision = text "";
  firmware_verified_max = none;
}
