-- ===== src/Catalog/Families/SuresineClassic.antt =====
-- The register table of src/morningstar_modbus/catalog/families/suresine_classic.py.
use morningstar_modbus_api.Prelude.{ℕ, true, false, none, some, List, [], ◌∷◌}
use morningstar_modbus_api.Prelude.Text.{Text, text}
use morningstar_modbus_api.Catalog.Types.{
  RegisterBlock, RegisterSpec, DeviceProfileSpec, holding_block, holding_register, telemetry, state,
  fault, alarm, metadata, network, configuration,
}
use morningstar_modbus_api.Catalog.Families.Common.{suresine_classic_load_states}

abbrev faults : List (ℕ × Text)
faults =
    (0, text "reset")
    ∷ (1, text "overcurrent")
    ∷ (3, text "software")
    ∷ (4, text "hvd")
    ∷ (5, text "heatsink_overtemp")
    ∷ (6, text "dip_changed")
    ∷ (7, text "settings_edit")
    ∷ []

abbrev alarms : List (ℕ × Text)
alarms =
    (0, text "heatsink_sensor_open")
    ∷ (1, text "heatsink_sensor_short")
    ∷ (3, text "heatsink_hot")
    ∷ []

abbrev pub suresine_classic_blocks : List RegisterBlock
suresine_classic_blocks =
    holding_block 0x0000 0x0011 telemetry false false
    ∷ holding_block 0xE002 0x0002 network true true
    ∷ holding_block 0xE044 0x0004 metadata true true
    ∷ []

abbrev pub suresine_classic_registers : List RegisterSpec
suresine_classic_registers =
    holding_register (text "battery_voltage_raw") 0x0000 1 (text "ufactor:0.0002581787109375")
      (some (text "V")) telemetry [] []
    ∷ holding_register (text "ac_output_current_raw") 0x0001 1 (text "suresine_classic_current")
        (some (text "A")) telemetry [] []
    ∷ holding_register (text "battery_voltage") 0x0004 1 (text "ufactor:0.0002581787109375")
        (some (text "V")) telemetry [] []
    ∷ holding_register (text "ac_output_current") 0x0005 1 (text "suresine_classic_current")
        (some (text "A")) telemetry [] []
    ∷ holding_register (text "heatsink_temp") 0x0006 1 (text "s16") (some (text "C")) telemetry []
        []
    ∷ holding_register (text "faults") 0x0007 1 (text "raw") none fault [] faults
    ∷ holding_register (text "alarms") 0x0008 1 (text "raw") none alarm [] alarms
    ∷ holding_register (text "dip_switch") 0x000A 1 (text "raw") none configuration [] []
    ∷ holding_register (text "load_state") 0x000B 1 (text "raw") none state
        suresine_classic_load_states []
    ∷ holding_register (text "modulation_index") 0x000C 1 (text "percent:256") (some (text "%"))
        telemetry [] []
    ∷ holding_register (text "ac_output_voltage") 0x000D 1 (text "raw") (some (text "V")) telemetry
        [] []
    ∷ holding_register (text "ac_output_frequency") 0x000E 1 (text "raw") (some (text "Hz"))
        telemetry [] []
    ∷ holding_register (text "modbus_id") 0xE002 1 (text "raw") none network [] []
    ∷ holding_register (text "meterbus_id") 0xE003 1 (text "raw") none network [] []
    ∷ holding_register (text "serial_number") 0xE044 4 (text "ascii_lo_hi") none metadata [] []
    ∷ []

abbrev pub suresine_classic : DeviceProfileSpec
suresine_classic = record {
  name = text "suresine_classic";
  family = text "SureSine Classic 300W";
  aliases = text "suresine300" ∷ text "suresine 300" ∷ text "suresine classic" ∷ [];
  source_id = text "suresine-classic-modbus-v03";
  blocks = suresine_classic_blocks;
  registers = suresine_classic_registers;
  capabilities = text "rtu" ∷ text "meterbus" ∷ text "inverter" ∷ text "device_identification" ∷ [];
  detection_priority = 80;
  catalog_revision = text "";
  firmware_verified_max = none;
}
