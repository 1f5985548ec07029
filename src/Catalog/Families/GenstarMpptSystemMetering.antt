-- ===== src/Catalog/Families/GenstarMpptSystemMetering.antt =====
-- The enhanced GenStar profile of
-- src/morningstar_modbus/catalog/families/genstar_mppt_system_metering.py.
use morningstar_modbus_api.Prelude.{
  true, false, not, some, List, [], ◌∷◌, ◌++◌, ◌==◌, any, map, if◌then◌else◌,
}
use morningstar_modbus_api.Prelude.Text.{text}
use morningstar_modbus_api.Catalog.Types.{
  RegisterBlock, RegisterSpec, DeviceProfileSpec, holding_block, holding_register, telemetry,
}
use morningstar_modbus_api.Catalog.Families.GenstarMppt.{genstar_mppt}

abbrev system_metering_registers : List RegisterSpec
system_metering_registers =
    holding_register (text "system_battery_ah_daily") 0x02DC 2 (text "f32") (some (text "Ah"))
      telemetry [] []
    ∷ holding_register (text "system_battery_ah_resettable") 0x02DE 2 (text "s32_factor:0.1")
        (some (text "Ah")) telemetry [] []
    ∷ holding_register (text "system_battery_ah_total") 0x02E0 2 (text "s32_factor:0.1")
        (some (text "Ah")) telemetry [] []
    ∷ holding_register (text "system_load_ah_daily") 0x02E2 2 (text "f32") (some (text "Ah"))
        telemetry [] []
    ∷ holding_register (text "system_load_ah_resettable") 0x02E4 2 (text "u32_factor:0.1")
        (some (text "Ah")) telemetry [] []
    ∷ holding_register (text "system_load_ah_total") 0x02E6 2 (text "u32_factor:0.1")
        (some (text "Ah")) telemetry [] []
    ∷ holding_register (text "internal_battery_ah_daily") 0x02F4 2 (text "f32") (some (text "Ah"))
        telemetry [] []
    ∷ holding_register (text "internal_battery_ah_resettable") 0x02F6 2 (text "s32_factor:0.1")
        (some (text "Ah")) telemetry [] []
    ∷ holding_register (text "internal_battery_ah_total") 0x02F8 2 (text "s32_factor:0.1")
        (some (text "Ah")) telemetry [] []
    ∷ holding_register (text "internal_load_ah_daily") 0x02FA 2 (text "f32") (some (text "Ah"))
        telemetry [] []
    ∷ holding_register (text "internal_load_ah_resettable") 0x02FC 2 (text "u32_factor:0.1")
        (some (text "Ah")) telemetry [] []
    ∷ holding_register (text "internal_load_ah_total") 0x02FE 2 (text "u32_factor:0.1")
        (some (text "Ah")) telemetry [] []
    ∷ holding_register (text "aggregated_shunt_charge_ah_daily") 0x227C 2 (text "f32")
        (some (text "Ah")) telemetry [] []
    ∷ holding_register (text "aggregated_shunt_charge_ah_resettable") 0x227E 2
        (text "u32_factor:0.1") (some (text "Ah")) telemetry [] []
    ∷ holding_register (text "aggregated_shunt_charge_ah_total") 0x2280 2 (text "u32_factor:0.1")
        (some (text "Ah")) telemetry [] []
    ∷ holding_register (text "aggregated_shunt_charge_kwh_daily") 0x2282 2 (text "f32")
        (some (text "kWh")) telemetry [] []
    ∷ holding_register (text "aggregated_shunt_charge_kwh_resettable") 0x2284 2
        (text "u32_factor:0.1") (some (text "kWh")) telemetry [] []
    ∷ holding_register (text "aggregated_shunt_charge_kwh_total") 0x2286 2 (text "u32_factor:0.1")
        (some (text "kWh")) telemetry [] []
    ∷ holding_register (text "aggregated_shunt_battery_ah_daily") 0x2288 2 (text "f32")
        (some (text "Ah")) telemetry [] []
    ∷ holding_register (text "aggregated_shunt_battery_ah_resettable") 0x228A 2
        (text "s32_factor:0.1") (some (text "Ah")) telemetry [] []
    ∷ holding_register (text "aggregated_shunt_battery_ah_total") 0x228C 2 (text "s32_factor:0.1")
        (some (text "Ah")) telemetry [] []
    ∷ holding_register (text "aggregated_shunt_load_ah_daily") 0x228E 2 (text "f32")
        (some (text "Ah")) telemetry [] []
    ∷ holding_register (text "aggregated_shunt_load_ah_resettable") 0x2290 2 (text "u32_factor:0.1")
        (some (text "Ah")) telemetry [] []
    ∷ holding_register (text "aggregated_shunt_load_ah_total") 0x2292 2 (text "u32_factor:0.1")
        (some (text "Ah")) telemetry [] []
    ∷ []

-- _BLOCK_REPLACEMENTS.get(block.address, block)
abbrev replaced : RegisterBlock → RegisterBlock
replaced b =
    if b.address == 0x02D0
    then holding_block 0x02D0 0x0018 telemetry false false
    else if b.address == 0x02E8
    then holding_block 0x02E8 0x0018 telemetry false false
    else b

abbrev with_shunt : List RegisterBlock → List RegisterBlock
with_shunt blocks =
    if not (any (λ b. RegisterBlock.address b == 0x227C) blocks)
    then blocks ++ holding_block 0x227C 0x0018 telemetry true false ∷ []
    else blocks

abbrev enhanced_blocks : List RegisterBlock
enhanced_blocks = with_shunt (map replaced (DeviceProfileSpec.blocks genstar_mppt))

abbrev pub enhanced_genstar_mppt : DeviceProfileSpec
enhanced_genstar_mppt = record genstar_mppt {
  blocks = enhanced_blocks;
  registers = genstar_mppt.registers ++ system_metering_registers;
  capabilities =
      genstar_mppt.capabilities
      ++ text "system_battery_counters"
        ∷ text "system_load_counters"
        ∷ text "aggregated_shunt_counters"
        ∷ [];
}
