-- ===== src/Catalog/Families/SuresineGen2.antt =====
-- The register table of src/morningstar_modbus/catalog/families/suresine_gen2.py.
use morningstar_modbus_api.Prelude.{ℕ, false, none, some, List, [], ◌∷◌}
use morningstar_modbus_api.Prelude.Text.{Text, text}
use morningstar_modbus_api.Catalog.Types.{
  RegisterBlock, RegisterSpec, DeviceProfileSpec, holding_block, holding_register, telemetry, state,
  fault, alarm, metadata, configuration,
}
use morningstar_modbus_api.Catalog.Families.Common.{suresine_gen2_led_states}

abbrev load_state_bits : List (ℕ × Text)
load_state_bits =
    (0, text "manual_power_on")
    ∷ (1, text "manual_power_off")
    ∷ (2, text "remote_switch_on")
    ∷ (3, text "remote_switch_off")
    ∷ (4, text "fault_power_off")
    ∷ (5, text "timed_auto_on")
    ∷ (6, text "timed_auto_off")
    ∷ (7, text "low_consumption_on")
    ∷ (8, text "low_consumption_off")
    ∷ (9, text "overload")
    ∷ (10, text "short_circuit")
    ∷ (11, text "hvd_fault")
    ∷ (12, text "lvd_fault")
    ∷ (13, text "high_temperature_fault")
    ∷ (14, text "comm_command_off")
    ∷ (15, text "comm_command_on")
    ∷ []

abbrev faults : List (ℕ × Text)
faults =
    (1, text "ac_overcurrent")
    ∷ (2, text "ac_short")
    ∷ (3, text "hvd")
    ∷ (4, text "lvd")
    ∷ (5, text "heatsink_overtemp_disconnect")
    ∷ (6, text "inverter_fault")
    ∷ []

abbrev alarms : List (ℕ × Text)
alarms =
    (0, text "heatsink_sensor_disconnected")
    ∷ (1, text "heatsink_sensor_short")
    ∷ (2, text "ambient_sensor_disconnected")
    ∷ []

abbrev pub suresine_gen2_blocks : List RegisterBlock
suresine_gen2_blocks =
    holding_block 0x0003 0x0014 telemetry false false
    ∷ holding_block 0x0051 0x000F telemetry false false
    ∷ []

abbrev pub suresine_gen2_registers : List RegisterSpec
suresine_gen2_registers =
    holding_register (text "rated_power") 0x0003 1 (text "ufactor:0.1") (some (text "W")) metadata
      [] []
    ∷ holding_register (text "nominal_dc_voltage") 0x0004 1 (text "ufactor:0.01") (some (text "V"))
        metadata [] []
    ∷ holding_register (text "ac_output_rating") 0x0005 1 (text "ufactor:0.1") (some (text "V"))
        metadata [] []
    ∷ holding_register (text "ac_frequency_rating") 0x0006 1 (text "raw") (some (text "Hz"))
        metadata [] []
    ∷ holding_register (text "remote_status") 0x0007 1 (text "raw") none state [] []
    ∷ holding_register (text "battery_voltage") 0x0008 1 (text "ufactor:0.01") (some (text "V"))
        telemetry [] []
    ∷ holding_register (text "battery_current") 0x0009 1 (text "factor:0.01") (some (text "A"))
        telemetry [] []
    ∷ holding_register (text "ac_output_voltage") 0x000A 1 (text "ufactor:0.1") (some (text "V"))
        telemetry [] []
    ∷ holding_register (text "ac_output_current") 0x000B 1 (text "ufactor:0.01") (some (text "A"))
        telemetry [] []
    ∷ holding_register (text "heatsink_temp") 0x000C 1 (text "s16") (some (text "C")) telemetry []
        []
    ∷ holding_register (text "internal_temp") 0x000E 1 (text "s16") (some (text "C")) telemetry []
        []
    ∷ holding_register (text "dip_switch") 0x000F 1 (text "raw") none configuration [] []
    ∷ holding_register (text "load_state") 0x0010 1 (text "raw") none state [] load_state_bits
    ∷ holding_register (text "heatsink_temp_status") 0x0012 1 (text "raw") none state [] []
    ∷ holding_register (text "ambient_temp_status") 0x0014 1 (text "raw") none state [] []
    ∷ holding_register (text "faults") 0x0015 1 (text "raw") none fault [] faults
    ∷ holding_register (text "alarms") 0x0016 1 (text "raw") none alarm [] alarms
    ∷ holding_register (text "total_energy") 0x0051 2 (text "u32") (some (text "Wh")) telemetry []
        []
    ∷ holding_register (text "run_state") 0x005C 1 (text "raw") none state
        ((0, text "AC_OFF") ∷ (1, text "AC_ON") ∷ []) []
    ∷ holding_register (text "led_state") 0x005D 1 (text "raw") none state suresine_gen2_led_states
        []
    ∷ holding_register (text "instantaneous_power") 0x005E 1 (text "ufactor:0.1") (some (text "W"))
        telemetry [] []
    ∷ holding_register (text "relay_state") 0x005F 1 (text "raw") none state [] []
    ∷ []

abbrev pub suresine_gen2 : DeviceProfileSpec
suresine_gen2 = record {
  name = text "suresine_gen2";
  family = text "SureSine Gen2";
  aliases = text "suresine gen2" ∷ text "suresine 2" ∷ text "suresine2" ∷ text "suresine-2" ∷ [];
  source_id = text "suresine-gen2-modbus";
  blocks = suresine_gen2_blocks;
  registers = suresine_gen2_registers;
  capabilities =
      text "rtu"
      ∷ text "eia485"
      ∷ text "inverter"
      ∷ text "modbus_tcp"
      ∷ text "ethernet"
      ∷ text "device_identification"
      ∷ [];
  detection_priority = 5;
  catalog_revision = text "";
  firmware_verified_max = none;
}
