-- ===== src/Catalog/Families/ProstarMppt.antt =====
-- The register table of src/morningstar_modbus/catalog/families/prostar_mppt.py.
use morningstar_modbus_api.Prelude.{true, false, none, some, List, [], ◌∷◌}
use morningstar_modbus_api.Prelude.Text.{text}
use morningstar_modbus_api.Catalog.Types.{
  RegisterBlock, RegisterSpec, DeviceProfileSpec, holding_block, holding_register, telemetry, state,
  fault, alarm, metadata, network, configuration,
}
use morningstar_modbus_api.Catalog.Families.Common.{
  load_faults, load_states, prostar_alarms, prostar_mppt_array_faults, prostar_mppt_charge_states,
}

abbrev pub prostar_mppt_blocks : List RegisterBlock
prostar_mppt_blocks =
    holding_block 0x0000 0x0052 telemetry false false
    ∷ holding_block 0xE034 0x0002 network true true
    ∷ []

abbrev pub prostar_mppt_registers : List RegisterSpec
prostar_mppt_registers =
    holding_register (text "firmware_version") 0x0000 1 (text "raw") none metadata [] []
    ∷ holding_register (text "system_voltage_multiplier") 0x0001 1 (text "raw") none metadata [] []
    ∷ holding_register (text "supply_3v3") 0x0004 1 (text "f16") (some (text "V")) telemetry [] []
    ∷ holding_register (text "supply_12v") 0x0005 1 (text "f16") (some (text "V")) telemetry [] []
    ∷ holding_register (text "supply_5v") 0x0006 1 (text "f16") (some (text "V")) telemetry [] []
    ∷ holding_register (text "gate_drive_voltage") 0x0007 1 (text "f16") (some (text "V")) telemetry
        [] []
    ∷ holding_register (text "meterbus_supply_voltage") 0x0008 1 (text "f16") (some (text "V"))
        telemetry [] []
    ∷ holding_register (text "charge_current") 0x0010 1 (text "f16") (some (text "A")) telemetry []
        []
    ∷ holding_register (text "array_current") 0x0011 1 (text "f16") (some (text "A")) telemetry []
        []
    ∷ holding_register (text "battery_terminal_voltage") 0x0012 1 (text "f16") (some (text "V"))
        telemetry [] []
    ∷ holding_register (text "array_voltage") 0x0013 1 (text "f16") (some (text "V")) telemetry []
        []
    ∷ holding_register (text "load_voltage") 0x0014 1 (text "f16") (some (text "V")) telemetry [] []
    ∷ holding_register (text "battery_net_current") 0x0015 1 (text "f16") (some (text "A"))
        telemetry [] []
    ∷ holding_register (text "load_current") 0x0016 1 (text "f16") (some (text "A")) telemetry [] []
    ∷ holding_register (text "battery_sense_voltage") 0x0017 1 (text "f16") (some (text "V"))
        telemetry [] []
    ∷ holding_register (text "battery_voltage_60s") 0x0018 1 (text "f16") (some (text "V"))
        telemetry [] []
    ∷ holding_register (text "battery_current_60s") 0x0019 1 (text "f16") (some (text "A"))
        telemetry [] []
    ∷ holding_register (text "heatsink_temp") 0x001A 1 (text "f16") (some (text "C")) telemetry []
        []
    ∷ holding_register (text "battery_temp") 0x001B 1 (text "f16") (some (text "C")) telemetry [] []
    ∷ holding_register (text "ambient_temp") 0x001C 1 (text "f16") (some (text "C")) telemetry [] []
    ∷ holding_register (text "rts_temp") 0x001D 1 (text "f16") (some (text "C")) telemetry [] []
    ∷ holding_register (text "charge_state") 0x0021 1 (text "raw") none state
        prostar_mppt_charge_states []
    ∷ holding_register (text "array_faults") 0x0022 1 (text "raw") none fault []
        prostar_mppt_array_faults
    ∷ holding_register (text "target_voltage") 0x0024 1 (text "f16") (some (text "V")) telemetry []
        []
    ∷ holding_register (text "load_state") 0x002E 1 (text "raw") none state load_states []
    ∷ holding_register (text "load_faults") 0x002F 1 (text "raw") none fault [] load_faults
    ∷ holding_register (text "hourmeter") 0x0036 2 (text "u32") (some (text "h")) telemetry [] []
    ∷ holding_register (text "alarms") 0x0038 2 (text "u32") none alarm [] prostar_alarms
    ∷ holding_register (text "dip_switch") 0x003A 1 (text "raw") none configuration [] []
    ∷ holding_register (text "led_state") 0x003B 1 (text "raw") none state [] []
    ∷ holding_register (text "output_power") 0x003C 1 (text "f16") (some (text "W")) telemetry [] []
    ∷ holding_register (text "vmp") 0x003D 1 (text "f16") (some (text "V")) telemetry [] []
    ∷ holding_register (text "pmax") 0x003E 1 (text "f16") (some (text "W")) telemetry [] []
    ∷ holding_register (text "voc") 0x003F 1 (text "f16") (some (text "V")) telemetry [] []
    ∷ holding_register (text "modbus_id") 0xE034 1 (text "raw") none network [] []
    ∷ holding_register (text "meterbus_id") 0xE035 1 (text "raw") none network [] []
    ∷ []

abbrev pub prostar_mppt : DeviceProfileSpec
prostar_mppt = record {
  name = text "prostar_mppt";
  family = text "ProStar MPPT";
  aliases = text "prostar mppt" ∷ text "ps-mppt" ∷ text "psmppt" ∷ [];
  source_id = text "prostar-mppt-modbus-v05";
  blocks = prostar_mppt_blocks;
  registers = prostar_mppt_registers;
  capabilities =
      text "rtu"
      ∷ text "meterbus"
      ∷ text "charge"
      ∷ text "load"
      ∷ text "lighting"
      ∷ text "device_identification"
      ∷ [];
  detection_priority = 40;
  catalog_revision = text "";
  firmware_verified_max = none;
}
