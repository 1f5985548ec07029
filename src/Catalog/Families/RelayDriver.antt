-- ===== src/Catalog/Families/RelayDriver.antt =====
-- The register table of src/morningstar_modbus/catalog/families/relay_driver.py.
use morningstar_modbus_api.Prelude.{true, false, none, List, [], ◌∷◌}
use morningstar_modbus_api.Prelude.Text.{text}
use morningstar_modbus_api.Catalog.Types.{
  RegisterBlock, RegisterSpec, DeviceProfileSpec, holding_block, telemetry,
}

abbrev pub relay_driver_blocks : List RegisterBlock
relay_driver_blocks = holding_block 0x0000 0x0020 telemetry true false ∷ []

abbrev pub relay_driver_registers : List RegisterSpec
relay_driver_registers = []

abbrev pub relay_driver : DeviceProfileSpec
relay_driver = record {
  name = text "relay_driver";
  family = text "Relay Driver RD-1";
  aliases = text "relay driver" ∷ text "relaydriver" ∷ text "rd-1" ∷ [];
  source_id = text "relay-driver-modbus";
  blocks = relay_driver_blocks;
  registers = relay_driver_registers;
  capabilities = text "rtu" ∷ text "rs232" ∷ text "relay_outputs" ∷ text "analog_inputs" ∷ [];
  detection_priority = 90;
  catalog_revision = text "";
  firmware_verified_max = none;
}
