-- ===== src/Catalog/Families/TristarMppt.antt =====
-- The register table of src/morningstar_modbus/catalog/families/tristar_mppt.py.
use morningstar_modbus_api.Prelude.{ℕ, true, false, none, some, List, [], ◌∷◌, ◌++◌}
use morningstar_modbus_api.Prelude.Text.{Text, text}
use morningstar_modbus_api.Catalog.Types.{
  RegisterBlock, RegisterSpec, DeviceProfileSpec, holding_block, holding_register, telemetry, state,
  fault, alarm, metadata,
}
use morningstar_modbus_api.Catalog.Families.Common.{
  tristar_mppt_alarms, tristar_mppt_charge_states, tristar_mppt_daily_flags, tristar_mppt_faults,
  tristar_mppt_led_states,
}

abbrev dip_switch_bits : List (ℕ × Text)
dip_switch_bits =
    (0, text "switch_1_on")
    ∷ (1, text "switch_2_on")
    ∷ (2, text "switch_3_on")
    ∷ (3, text "switch_4_on")
    ∷ (4, text "switch_5_on")
    ∷ (5, text "switch_6_on")
    ∷ (6, text "switch_7_on")
    ∷ (7, text "switch_8_on")
    ∷ []

abbrev pub tristar_mppt_blocks : List RegisterBlock
tristar_mppt_blocks =
    holding_block 0x0000 0x0050 telemetry false false
    ∷ holding_block 0xE0C0 0x000E metadata true true
    ∷ []

abbrev pub tristar_mppt_registers_a : List RegisterSpec
tristar_mppt_registers_a =
    holding_register (text "voltage_scale_hi") 0x0000 1 (text "raw") none metadata [] []
    ∷ holding_register (text "voltage_scale_lo") 0x0001 1 (text "raw") none metadata [] []
    ∷ holding_register (text "current_scale_hi") 0x0002 1 (text "raw") none metadata [] []
    ∷ holding_register (text "current_scale_lo") 0x0003 1 (text "raw") none metadata [] []
    ∷ holding_register (text "firmware_version") 0x0004 1 (text "bcd") none metadata [] []
    ∷ holding_register (text "battery_voltage") 0x0018 1 (text "tristar_voltage") (some (text "V"))
        telemetry [] []
    ∷ holding_register (text "battery_terminal_voltage") 0x0019 1 (text "tristar_voltage")
        (some (text "V")) telemetry [] []
    ∷ holding_register (text "battery_sense_voltage") 0x001A 1 (text "tristar_voltage")
        (some (text "V")) telemetry [] []
    ∷ holding_register (text "array_voltage") 0x001B 1 (text "tristar_voltage") (some (text "V"))
        telemetry [] []
    ∷ holding_register (text "battery_charge_current") 0x001C 1 (text "tristar_current")
        (some (text "A")) telemetry [] []
    ∷ holding_register (text "array_current") 0x001D 1 (text "tristar_current") (some (text "A"))
        telemetry [] []
    ∷ holding_register (text "supply_12v_voltage") 0x001E 1 (text "factor:0.0005679931640625")
        (some (text "V")) telemetry [] []
    ∷ holding_register (text "supply_3v_voltage") 0x001F 1 (text "factor:0.000201416015625")
        (some (text "V")) telemetry [] []
    ∷ holding_register (text "meterbus_voltage") 0x0020 1 (text "factor:0.0005679931640625")
        (some (text "V")) telemetry [] []
    ∷ holding_register (text "supply_1v8_voltage") 0x0021 1 (text "factor:0.000091552734375")
        (some (text "V")) telemetry [] []
    ∷ holding_register (text "reference_voltage") 0x0022 1 (text "factor:0.000091552734375")
        (some (text "V")) telemetry [] []
    ∷ holding_register (text "heatsink_temp") 0x0023 1 (text "s16") (some (text "C")) telemetry []
        []
    ∷ holding_register (text "rts_temp") 0x0024 1 (text "tristar_rts_temp") (some (text "C"))
        telemetry [] []
    ∷ holding_register (text "battery_temp") 0x0025 1 (text "s16") (some (text "C")) telemetry [] []
    ∷ []

abbrev pub tristar_mppt_registers_b : List RegisterSpec
tristar_mppt_registers_b =
    holding_register (text "battery_voltage_1m") 0x0026 1 (text "tristar_voltage") (some (text "V"))
      telemetry [] []
    ∷ holding_register (text "charge_current_1m") 0x0027 1 (text "tristar_current")
        (some (text "A")) telemetry [] []
    ∷ holding_register (text "battery_voltage_min") 0x0028 1 (text "tristar_voltage")
        (some (text "V")) telemetry [] []
    ∷ holding_register (text "battery_voltage_max") 0x0029 1 (text "tristar_voltage")
        (some (text "V")) telemetry [] []
    ∷ holding_register (text "operating_hours") 0x002A 2 (text "u32") (some (text "h")) telemetry []
        []
    ∷ holding_register (text "faults") 0x002C 1 (text "raw") none fault [] tristar_mppt_faults
    ∷ holding_register (text "alarms") 0x002E 2 (text "u32") none alarm [] tristar_mppt_alarms
    ∷ holding_register (text "dip_switches") 0x0030 1 (text "raw") none state [] dip_switch_bits
    ∷ holding_register (text "led_state") 0x0031 1 (text "raw") none state tristar_mppt_led_states
        []
    ∷ holding_register (text "charge_state") 0x0032 1 (text "raw") none state
        tristar_mppt_charge_states []
    ∷ holding_register (text "target_voltage") 0x0033 1 (text "tristar_voltage") (some (text "V"))
        telemetry [] []
    ∷ holding_register (text "charge_ah_resettable") 0x0034 2 (text "u32_factor:0.1")
        (some (text "Ah")) telemetry [] []
    ∷ holding_register (text "charge_ah_total") 0x0036 2 (text "u32_factor:0.1") (some (text "Ah"))
        telemetry [] []
    ∷ holding_register (text "charge_kwh_resettable") 0x0038 1 (text "raw") (some (text "kWh"))
        telemetry [] []
    ∷ holding_register (text "charge_kwh_total") 0x0039 1 (text "raw") (some (text "kWh")) telemetry
        [] []
    ∷ holding_register (text "output_power") 0x003A 1 (text "tristar_power") (some (text "W"))
        telemetry [] []
    ∷ holding_register (text "input_power_reported") 0x003B 1 (text "tristar_power")
        (some (text "W")) telemetry [] []
    ∷ holding_register (text "sweep_max_power") 0x003C 1 (text "tristar_power") (some (text "W"))
        telemetry [] []
    ∷ holding_register (text "sweep_vmp") 0x003D 1 (text "tristar_voltage") (some (text "V"))
        telemetry [] []
    ∷ []

abbrev pub tristar_mppt_registers_c : List RegisterSpec
tristar_mppt_registers_c =
    holding_register (text "sweep_voc") 0x003E 1 (text "tristar_voltage") (some (text "V"))
      telemetry [] []
    ∷ holding_register (text "daily_battery_voltage_min") 0x0040 1 (text "tristar_voltage")
        (some (text "V")) telemetry [] []
    ∷ holding_register (text "daily_battery_voltage_max") 0x0041 1 (text "tristar_voltage")
        (some (text "V")) telemetry [] []
    ∷ holding_register (text "daily_array_voltage_max") 0x0042 1 (text "tristar_voltage")
        (some (text "V")) telemetry [] []
    ∷ holding_register (text "daily_charge_ah") 0x0043 1 (text "ufactor:0.1") (some (text "Ah"))
        telemetry [] []
    ∷ holding_register (text "daily_charge_wh") 0x0044 1 (text "raw") (some (text "Wh")) telemetry
        [] []
    ∷ holding_register (text "daily_flags") 0x0045 1 (text "raw") none state []
        tristar_mppt_daily_flags
    ∷ holding_register (text "daily_output_power_max") 0x0046 1 (text "tristar_power")
        (some (text "W")) telemetry [] []
    ∷ holding_register (text "daily_battery_temp_min") 0x0047 1 (text "s16") (some (text "C"))
        telemetry [] []
    ∷ holding_register (text "daily_battery_temp_max") 0x0048 1 (text "s16") (some (text "C"))
        telemetry [] []
    ∷ holding_register (text "daily_faults") 0x0049 1 (text "raw") none fault [] tristar_mppt_faults
    ∷ holding_register (text "daily_alarms") 0x004B 2 (text "u32") none alarm [] tristar_mppt_alarms
    ∷ holding_register (text "daily_absorption_seconds") 0x004D 1 (text "raw") (some (text "s"))
        telemetry [] []
    ∷ holding_register (text "daily_equalize_seconds") 0x004E 1 (text "raw") (some (text "s"))
        telemetry [] []
    ∷ holding_register (text "daily_float_seconds") 0x004F 1 (text "raw") (some (text "s"))
        telemetry [] []
    ∷ holding_register (text "serial_number") 0xE0C0 4 (text "ascii_lo_hi") none metadata [] []
    ∷ holding_register (text "model_flag") 0xE0CC 1 (text "raw") none metadata
        ((0, text "TS-MPPT-45") ∷ (1, text "TS-MPPT-60") ∷ []) []
    ∷ holding_register (text "hardware_version") 0xE0CD 1 (text "byte_pair_version") none metadata
        [] []
    ∷ []

abbrev pub tristar_mppt_registers : List RegisterSpec
tristar_mppt_registers =
    tristar_mppt_registers_a ++ tristar_mppt_registers_b ++ tristar_mppt_registers_c

abbrev pub tristar_mppt : DeviceProfileSpec
tristar_mppt = record {
  name = text "tristar_mppt";
  family = text "TriStar MPPT 150V";
  aliases = text "tristar mppt" ∷ text "ts-mppt-45" ∷ text "ts-mppt-60" ∷ text "tsmppt" ∷ [];
  source_id = text "tristar-mppt-modbus-v11";
  blocks = tristar_mppt_blocks;
  registers = tristar_mppt_registers;
  capabilities =
      text "rtu"
      ∷ text "rs232"
      ∷ text "eia485"
      ∷ text "modbus_tcp"
      ∷ text "ethernet"
      ∷ text "device_identification"
      ∷ [];
  detection_priority = 20;
  catalog_revision = text "";
  firmware_verified_max = none;
}
