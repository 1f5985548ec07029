-- ===== src/Catalog/Families/TristarMppt600v.antt =====
-- The register table of src/morningstar_modbus/catalog/families/tristar_mppt_600v.py.
use morningstar_modbus_api.Prelude.{false, none, some, List, [], ◌∷◌}
use morningstar_modbus_api.Prelude.Text.{text}
use morningstar_modbus_api.Catalog.Types.{
  RegisterBlock, RegisterSpec, DeviceProfileSpec, holding_block, holding_register, telemetry, state,
  fault, metadata,
}
use morningstar_modbus_api.Catalog.Families.Common.{tristar_mppt_charge_states, tristar_mppt_faults}

abbrev pub tristar_mppt_600v_blocks : List RegisterBlock
tristar_mppt_600v_blocks = holding_block 0x0000 0x0050 telemetry false false ∷ []

abbrev pub tristar_mppt_600v_registers : List RegisterSpec
tristar_mppt_600v_registers =
    holding_register (text "voltage_scale_hi") 0x0000 1 (text "raw") none metadata [] []
    ∷ holding_register (text "voltage_scale_lo") 0x0001 1 (text "raw") none metadata [] []
    ∷ holding_register (text "current_scale_hi") 0x0002 1 (text "raw") none metadata [] []
    ∷ holding_register (text "current_scale_lo") 0x0003 1 (text "raw") none metadata [] []
    ∷ holding_register (text "firmware_version") 0x0004 1 (text "bcd") none metadata [] []
    ∷ holding_register (text "fpga_version") 0x0005 1 (text "bcd") none metadata [] []
    ∷ holding_register (text "system_voltage_multiplier") 0x0006 1 (text "raw") none metadata [] []
    ∷ holding_register (text "battery_voltage") 0x0018 1 (text "ts600_voltage") (some (text "V"))
        telemetry [] []
    ∷ holding_register (text "battery_terminal_voltage") 0x0019 1 (text "ts600_voltage")
        (some (text "V")) telemetry [] []
    ∷ holding_register (text "battery_sense_voltage") 0x001A 1 (text "ts600_voltage")
        (some (text "V")) telemetry [] []
    ∷ holding_register (text "array_voltage") 0x001B 1 (text "ts600_voltage") (some (text "V"))
        telemetry [] []
    ∷ holding_register (text "battery_charge_current") 0x001C 1 (text "ts600_current")
        (some (text "A")) telemetry [] []
    ∷ holding_register (text "array_current") 0x001D 1 (text "ts600_current") (some (text "A"))
        telemetry [] []
    ∷ holding_register (text "faults") 0x002C 1 (text "raw") none fault [] tristar_mppt_faults
    ∷ holding_register (text "charge_state") 0x0032 1 (text "raw") none state
        tristar_mppt_charge_states []
    ∷ []

abbrev pub tristar_mppt_600v : DeviceProfileSpec
tristar_mppt_600v = record {
  name = text "tristar_mppt_600v";
  family = text "TriStar MPPT 600V";
  aliases = text "tristar mppt 600v" ∷ text "ts-mppt-60-600v" ∷ text "tsmppt600v" ∷ [];
  source_id = text "tristar-mppt-600v-modbus";
  blocks = tristar_mppt_600v_blocks;
  registers = tristar_mppt_600v_registers;
  capabilities =
      text "rtu" ∷ text "rs232" ∷ text "eia485" ∷ text "modbus_tcp" ∷ text "ethernet" ∷ [];
  detection_priority = 10;
  catalog_revision = text "";
  firmware_verified_max = none;
}
