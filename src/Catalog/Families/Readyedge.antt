-- ===== src/Catalog/Families/Readyedge.antt =====
-- The register table of src/morningstar_modbus/catalog/families/readyedge.py.
use morningstar_modbus_api.Prelude.{ℕ, true, false, none, some, List, [], ◌∷◌, ◌++◌}
use morningstar_modbus_api.Prelude.Text.{Text, text}
use morningstar_modbus_api.Prelude.{zero, suc, ◌+◌, ◌*◌}
use morningstar_modbus_api.Catalog.Scaling.{decimal}
use morningstar_modbus_api.Catalog.Types.{
  RegisterBlock, RegisterSpec, DeviceProfileSpec, holding_block, holding_register, telemetry, state,
  fault, alarm, metadata, network,
}

abbrev system_faults : List (ℕ × Text)
system_faults =
    (0, text "system_eeprom")
    ∷ (2, text "software")
    ∷ (6, text "system_setting_edit")
    ∷ (19, text "minboot")
    ∷ (29, text "system_setting_bad")
    ∷ (30, text "hardware")
    ∷ []

abbrev alarms : List (ℕ × Text)
alarms =
    (0, text "rts1_open")
    ∷ (1, text "rts1_short")
    ∷ (2, text "rts1_disconnected")
    ∷ (9, text "connected_product_missing")
    ∷ (14, text "soc_invalid")
    ∷ (15, text "rts2_open")
    ∷ (16, text "rts2_short")
    ∷ (17, text "rts2_disconnected")
    ∷ (20, text "tank_sensor_open")
    ∷ (21, text "tank_sensor_short")
    ∷ (22, text "tank_sensor_low")
    ∷ (23, text "tank_sensor_bad_range")
    ∷ (24, text "eeprom")
    ∷ (25, text "ethernet")
    ∷ (27, text "software")
    ∷ (29, text "external_flash")
    ∷ (33, text "rtc_low_battery")
    ∷ (35, text "rtc_wrong")
    ∷ (36, text "rtc_hardware")
    ∷ (41, text "wireless_failure")
    ∷ (42, text "hardware")
    ∷ (43, text "unknown_block_type")
    ∷ (44, text "block1_hardware")
    ∷ (45, text "block2_hardware")
    ∷ (46, text "block3_hardware")
    ∷ (47, text "block4_hardware")
    ∷ (48, text "block5_hardware")
    ∷ (49, text "block6_hardware")
    ∷ (50, text "generator_start_failed")
    ∷ (52, text "schedule_publisher_failed")
    ∷ (55, text "connected_product_address_conflict")
    ∷ (56, text "incorrect_installer_password")
    ∷ []

abbrev connected_product_types : List (ℕ × Text)
connected_product_types =
    (65535, text "none")
    ∷ (0, text "unknown")
    ∷ (256, text "TriStar-PWM")
    ∷ (260, text "TriStar-MPPT")
    ∷ (261, text "SunSaver-MPPT")
    ∷ (262, text "SureSine-300")
    ∷ (265, text "TriStar-MPPT-600V")
    ∷ (266, text "ProStar-MPPT")
    ∷ (269, text "ProStar-PWM")
    ∷ []

abbrev pub readyedge_blocks : List RegisterBlock
readyedge_blocks =
    holding_block 0x0000 0x0006 metadata false true
    ∷ holding_block 0x0016 0x0005 telemetry false false
    ∷ holding_block 0x0076 0x0002 telemetry false false
    ∷ holding_block 0x0082 0x0004 telemetry false false
    ∷ holding_block 0x01E2 0x0004 telemetry false false
    ∷ holding_block 0x01EA 0x0004 telemetry false false
    ∷ holding_block 0x0270 0x0001 telemetry false false
    ∷ holding_block 0x1F53 0x0076 network true false
    ∷ holding_block 0x1FD3 0x0076 network true false
    ∷ []

abbrev pub readyedge_registers_a : List RegisterSpec
readyedge_registers_a =
    holding_register (text "firmware_version") 0x0000 1 (text "raw") none metadata [] []
    ∷ holding_register (text "serial_number") 0x0001 4 (text "ascii_hi_lo") none metadata [] []
    ∷ holding_register (text "software_patchlevel") 0x0005 1 (text "raw") none metadata [] []
    ∷ holding_register (text "dc_input_1_voltage") 0x0016 1 (text "f16") (some (text "V")) telemetry
        [] []
    ∷ holding_register (text "dc_input_2_voltage") 0x0017 1 (text "f16") (some (text "V")) telemetry
        [] []
    ∷ holding_register (text "dc_input_3_voltage") 0x0018 1 (text "f16") (some (text "V")) telemetry
        [] []
    ∷ holding_register (text "input_voltage") 0x0019 1 (text "f16") (some (text "V")) telemetry []
        []
    ∷ holding_register (text "output_12v_voltage") 0x001A 1 (text "f16") (some (text "V")) telemetry
        [] []
    ∷ holding_register (text "rts_1_temp") 0x0076 1 (text "f16") (some (text "C")) telemetry [] []
    ∷ holding_register (text "rts_2_temp") 0x0077 1 (text "f16") (some (text "C")) telemetry [] []
    ∷ holding_register (text "ac_detected") 0x0082 1 (text "raw") none state [] []
    ∷ holding_register (text "battery_soc") 0x0083 1 (text "f16_percent") (some (text "%"))
        telemetry [] []
    ∷ holding_register (text "battery_soc_min_daily") 0x0084 1 (text "f16_percent")
        (some (text "%")) telemetry [] []
    ∷ holding_register (text "battery_soc_max_daily") 0x0085 1 (text "f16_percent")
        (some (text "%")) telemetry [] []
    ∷ holding_register (text "system_faults") 0x01E2 4 (text "bitfield_words") none fault []
        system_faults
    ∷ holding_register (text "alarms") 0x01EA 4 (text "bitfield_words") none alarm [] alarms
    ∷ holding_register (text "led_state") 0x0270 1 (text "raw") none state [] []
    ∷ []

abbrev slot_registers : ℕ → List RegisterSpec
slot_registers slot =
    let base = 0x1F53 + slot * 0x10 in
    let prefix = text "connected_product_" ++ decimal slot ++ text "_" in
    holding_register (prefix ++ text "type") base 1 (text "raw") none network
      connected_product_types []
    ∷ holding_register (prefix ++ text "serial") (base + 1) 4 (text "ascii_hi_lo") none network []
        []
    ∷ holding_register (prefix ++ text "bus_and_address") (base + 5) 1 (text "raw") none network []
        []
    ∷ []

-- range(16), from a slot on
abbrev slots_from : ℕ → ℕ → List RegisterSpec
slots_from zero slot = []
slots_from (suc n) slot = slot_registers slot ++ slots_from n (suc slot)

abbrev connected_product_registers : List RegisterSpec
connected_product_registers = slots_from 16 0

abbrev pub readyedge_registers : List RegisterSpec
readyedge_registers = readyedge_registers_a ++ connected_product_registers

abbrev pub readyedge : DeviceProfileSpec
readyedge = record {
  name = text "readyedge";
  family = text "ReadyEdge RE-1";
  aliases = text "readyedge" ∷ text "ready edge" ∷ text "re-1" ∷ [];
  source_id = text "readyedge-modbus-v01";
  blocks = readyedge_blocks;
  registers = readyedge_registers;
  capabilities =
      text "rtu"
      ∷ text "usb"
      ∷ text "rs232"
      ∷ text "eia485"
      ∷ text "modbus_tcp"
      ∷ text "ethernet"
      ∷ text "meterbus"
      ∷ text "ms_can"
      ∷ text "readyrail"
      ∷ text "connected_product_bridge"
      ∷ text "connected_product_inventory"
      ∷ text "device_identification"
      ∷ [];
  detection_priority = 2;
  catalog_revision = text "";
  firmware_verified_max = none;
}
