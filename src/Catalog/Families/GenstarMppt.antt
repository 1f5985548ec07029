-- ===== src/Catalog/Families/GenstarMppt.antt =====
-- The register table of src/morningstar_modbus/catalog/families/genstar_mppt.py.
use morningstar_modbus_api.Prelude.{ℕ, true, false, none, some, List, [], ◌∷◌, ◌++◌}
use morningstar_modbus_api.Prelude.Text.{Text, text}
use morningstar_modbus_api.Catalog.Types.{
  RegisterBlock, RegisterSpec, DeviceProfileSpec, holding_block, holding_register, telemetry, state,
  fault, alarm, metadata,
}

abbrev charge_states : List (ℕ × Text)
charge_states =
    (0, text "STARTING")
    ∷ (1, text "NIGHT_CHECK")
    ∷ (2, text "DISCONNECTED")
    ∷ (3, text "NIGHT")
    ∷ (4, text "FAULT")
    ∷ (5, text "BULK")
    ∷ (6, text "ABSORPTION")
    ∷ (7, text "FLOAT")
    ∷ (8, text "EQUALIZE")
    ∷ []

abbrev load_states : List (ℕ × Text)
load_states =
    (0, text "START")
    ∷ (1, text "NORMAL")
    ∷ (2, text "LVD_WARNING")
    ∷ (3, text "LVD")
    ∷ (4, text "FAULT")
    ∷ (5, text "DISCONNECT")
    ∷ (6, text "NORMAL_OFF")
    ∷ (7, text "OVERRIDE")
    ∷ []

abbrev system_faults : List (ℕ × Text)
system_faults =
    (0, text "eeprom_chip_failure")
    ∷ (2, text "software_fault")
    ∷ (3, text "no_model_number")
    ∷ (6, text "eeprom_settings_edit")
    ∷ (8, text "bms_required")
    ∷ (10, text "software_reset")
    ∷ (15, text "adc_overrun")
    ∷ (16, text "adc_no_injection")
    ∷ (17, text "adc_double_injection")
    ∷ (18, text "battery_shunt_missing")
    ∷ (29, text "eeprom_settings_bad")
    ∷ (30, text "hardware_failure")
    ∷ []

abbrev alarms : List (ℕ × Text)
alarms =
    (0, text "rts_open")
    ∷ (1, text "rts_shorted")
    ∷ (2, text "rts_disconnected")
    ∷ (3, text "heatsink_sensor_open")
    ∷ (4, text "heatsink_sensor_shorted")
    ∷ (5, text "heatsink_overtemp_limiting")
    ∷ (6, text "current_limiting")
    ∷ (7, text "battery_current_offset")
    ∷ (8, text "battery_sense_error")
    ∷ (9, text "battery_sense_disconnected")
    ∷ (10, text "uncalibrated")
    ∷ (11, text "rts_near_5v")
    ∷ (17, text "high_array_voltage_current_limit")
    ∷ (23, text "array_current_offset")
    ∷ (24, text "eeprom_bus_failure")
    ∷ (25, text "ethernet_hardware")
    ∷ (26, text "entered_lvd")
    ∷ (27, text "software_runtime_error")
    ∷ (29, text "external_flash_failure")
    ∷ (32, text "inductor_current_offset")
    ∷ (33, text "coin_cell_low")
    ∷ (35, text "rtc_wrong")
    ∷ (36, text "rtc_hardware")
    ∷ (37, text "casting_temp_sensor_open")
    ∷ (38, text "casting_temp_sensor_short")
    ∷ (39, text "inductor_casting_overtemp")
    ∷ (41, text "wireless_module_failure")
    ∷ (42, text "hardware_error_post_startup")
    ∷ (43, text "unknown_block_type")
    ∷ (44, text "readyblock_1_hardware")
    ∷ (45, text "readyblock_2_hardware")
    ∷ (46, text "readyblock_3_hardware")
    ∷ (50, text "generator_start_failed")
    ∷ (51, text "backup_generator_start_failed")
    ∷ (52, text "schedule_publisher_failed")
    ∷ (53, text "processor_uncalibrated")
    ∷ (54, text "load_current_offset")
    ∷ (55, text "load_fet_stuck_open")
    ∷ (56, text "bms_sense_error")
    ∷ (57, text "bms_sense_disconnected")
    ∷ []

abbrev load_faults : List (ℕ × Text)
load_faults =
    (0, text "load_software")
    ∷ (1, text "load_overcurrent")
    ∷ (2, text "load_external_short")
    ∷ (3, text "load_power_supply")
    ∷ (4, text "load_hvd")
    ∷ (5, text "load_heatsink_overtemp")
    ∷ (6, text "load_fet_shorted")
    ∷ (7, text "load_system")
    ∷ []

abbrev charge_faults : List (ℕ × Text)
charge_faults =
    (0, text "software_bug")
    ∷ (1, text "battery_hvd")
    ∷ (2, text "rts_shorted")
    ∷ (3, text "rts_disconnected")
    ∷ (4, text "slave_mode_timeout")
    ∷ []

abbrev pub genstar_mppt_blocks : List RegisterBlock
genstar_mppt_blocks =
    holding_block 0x0000 0x0006 metadata false true
    ∷ holding_block 0x001F 0x001A telemetry false false
    ∷ holding_block 0x0063 0x0003 telemetry false false
    ∷ holding_block 0x0075 0x0005 telemetry false false
    ∷ holding_block 0x0080 0x0001 telemetry false false
    ∷ holding_block 0x00B1 0x0007 telemetry false false
    ∷ holding_block 0x00E0 0x000B telemetry false false
    ∷ holding_block 0x00F0 0x0005 telemetry false false
    ∷ holding_block 0x0100 0x0011 telemetry false false
    ∷ holding_block 0x0212 0x0018 telemetry false false
    ∷ holding_block 0x026A 0x0005 telemetry false false
    ∷ holding_block 0x0271 0x0009 telemetry false false
    ∷ holding_block 0x02A0 0x0002 telemetry false false
    ∷ holding_block 0x02D0 0x000C telemetry false false
    ∷ holding_block 0x02E8 0x000C telemetry false false
    ∷ []

abbrev pub genstar_mppt_registers_a : List RegisterSpec
genstar_mppt_registers_a =
    holding_register (text "firmware_version") 0x0000 1 (text "raw") none metadata [] []
    ∷ holding_register (text "serial_number") 0x0001 4 (text "ascii_hi_lo") none metadata [] []
    ∷ holding_register (text "software_patchlevel") 0x0005 1 (text "raw") none metadata [] []
    ∷ holding_register (text "load_current") 0x001F 1 (text "f16") (some (text "A")) telemetry [] []
    ∷ holding_register (text "array_current") 0x0020 1 (text "f16") (some (text "A")) telemetry []
        []
    ∷ holding_register (text "battery_terminal_voltage") 0x0021 1 (text "f16") (some (text "V"))
        telemetry [] []
    ∷ holding_register (text "array_voltage") 0x0022 1 (text "f16") (some (text "V")) telemetry []
        []
    ∷ holding_register (text "load_voltage") 0x0023 1 (text "f16") (some (text "V")) telemetry [] []
    ∷ holding_register (text "battery_sense_voltage") 0x0025 1 (text "f16") (some (text "V"))
        telemetry [] []
    ∷ holding_register (text "casting_temp") 0x002A 1 (text "f16") (some (text "C")) telemetry [] []
    ∷ holding_register (text "coin_cell_voltage") 0x0036 1 (text "f16") (some (text "V")) telemetry
        [] []
    ∷ holding_register (text "system_charge_current") 0x0063 1 (text "f16") (some (text "A"))
        telemetry [] []
    ∷ holding_register (text "system_battery_current") 0x0064 1 (text "f16") (some (text "A"))
        telemetry [] []
    ∷ holding_register (text "system_load_current") 0x0065 1 (text "f16") (some (text "A"))
        telemetry [] []
    ∷ holding_register (text "battery_temp") 0x0075 1 (text "f16") (some (text "C")) telemetry [] []
    ∷ holding_register (text "rts_temp") 0x0076 1 (text "f16") (some (text "C")) telemetry [] []
    ∷ holding_register (text "heatsink_temp") 0x0077 1 (text "f16") (some (text "C")) telemetry []
        []
    ∷ holding_register (text "inductor_casting_temp") 0x0078 1 (text "f16") (some (text "C"))
        telemetry [] []
    ∷ holding_register (text "internal_temp") 0x0079 1 (text "f16") (some (text "C")) telemetry []
        []
    ∷ holding_register (text "charge_state") 0x0080 1 (text "raw") none state charge_states []
    ∷ []

abbrev pub genstar_mppt_registers_b : List RegisterSpec
genstar_mppt_registers_b =
    holding_register (text "target_voltage") 0x00B1 1 (text "f16") (some (text "V")) telemetry [] []
    ∷ holding_register (text "bms_mode") 0x00B2 1 (text "raw") none state [] []
    ∷ holding_register (text "slave_target_voltage") 0x00B4 1 (text "f16") (some (text "V"))
        telemetry [] []
    ∷ holding_register (text "max_array_current") 0x00B5 1 (text "f16") (some (text "A")) metadata
        [] []
    ∷ holding_register (text "max_charge_current") 0x00B6 1 (text "f16") (some (text "A")) metadata
        [] []
    ∷ holding_register (text "max_battery_current") 0x00B7 1 (text "f16") (some (text "A")) metadata
        [] []
    ∷ holding_register (text "battery_soc") 0x00E0 1 (text "f16_percent") (some (text "%"))
        telemetry [] []
    ∷ holding_register (text "battery_voltage_min") 0x00E1 1 (text "f16") (some (text "V"))
        telemetry [] []
    ∷ holding_register (text "battery_voltage_max") 0x00E2 1 (text "f16") (some (text "V"))
        telemetry [] []
    ∷ holding_register (text "output_power") 0x00F0 1 (text "f16") (some (text "W")) telemetry [] []
    ∷ holding_register (text "vmp") 0x00F1 1 (text "f16") (some (text "V")) telemetry [] []
    ∷ holding_register (text "pmax") 0x00F2 1 (text "f16") (some (text "W")) telemetry [] []
    ∷ holding_register (text "voc") 0x00F3 1 (text "f16") (some (text "V")) telemetry [] []
    ∷ holding_register (text "array_voltage_reference") 0x00F4 1 (text "f16") (some (text "V"))
        telemetry [] []
    ∷ holding_register (text "load_state") 0x0100 1 (text "raw") none state load_states []
    ∷ holding_register (text "load_faults") 0x0101 2 (text "bitfield_words") none fault []
        load_faults
    ∷ holding_register (text "system_faults") 0x0212 4 (text "bitfield_words") none fault []
        system_faults
    ∷ holding_register (text "system_faults_daily") 0x0216 4 (text "bitfield_words") none fault []
        system_faults
    ∷ holding_register (text "alarms") 0x021A 4 (text "bitfield_words") none alarm [] alarms
    ∷ holding_register (text "alarms_daily") 0x021E 4 (text "bitfield_words") none alarm [] alarms
    ∷ []

abbrev pub genstar_mppt_registers_c : List RegisterSpec
genstar_mppt_registers_c =
    holding_register (text "charge_faults") 0x0222 4 (text "bitfield_words") none fault []
      charge_faults
    ∷ holding_register (text "charge_faults_daily") 0x0226 4 (text "bitfield_words") none fault []
        charge_faults
    ∷ holding_register (text "battery_voltage_min_hourly") 0x026A 1 (text "f16") (some (text "V"))
        telemetry [] []
    ∷ holding_register (text "battery_voltage_max_hourly") 0x026B 1 (text "f16") (some (text "V"))
        telemetry [] []
    ∷ holding_register (text "battery_voltage_min_daily") 0x026C 1 (text "f16") (some (text "V"))
        telemetry [] []
    ∷ holding_register (text "battery_voltage_max_daily") 0x026D 1 (text "f16") (some (text "V"))
        telemetry [] []
    ∷ holding_register (text "array_voltage_max_daily") 0x026E 1 (text "f16") (some (text "V"))
        telemetry [] []
    ∷ holding_register (text "output_power_max_daily") 0x0271 1 (text "f16") (some (text "W"))
        telemetry [] []
    ∷ holding_register (text "battery_temp_min_daily") 0x0272 1 (text "f16") (some (text "C"))
        telemetry [] []
    ∷ holding_register (text "battery_temp_max_daily") 0x0273 1 (text "f16") (some (text "C"))
        telemetry [] []
    ∷ holding_register (text "absorption_seconds_daily") 0x0274 2 (text "f32") (some (text "s"))
        telemetry [] []
    ∷ holding_register (text "equalize_seconds_daily") 0x0276 2 (text "f32") (some (text "s"))
        telemetry [] []
    ∷ holding_register (text "float_seconds_daily") 0x0278 2 (text "f32") (some (text "s"))
        telemetry [] []
    ∷ holding_register (text "led_state") 0x02A0 1 (text "raw") none state [] []
    ∷ holding_register (text "soc_led_state") 0x02A1 1 (text "raw") none state [] []
    ∷ holding_register (text "system_charge_kwh_daily") 0x02D0 2 (text "f32") (some (text "kWh"))
        telemetry [] []
    ∷ holding_register (text "system_charge_kwh_resettable") 0x02D2 2 (text "u32_factor:0.1")
        (some (text "kWh")) telemetry [] []
    ∷ holding_register (text "system_charge_kwh_total") 0x02D4 2 (text "u32_factor:0.1")
        (some (text "kWh")) telemetry [] []
    ∷ holding_register (text "system_charge_ah_daily") 0x02D6 2 (text "f32") (some (text "Ah"))
        telemetry [] []
    ∷ holding_register (text "system_charge_ah_resettable") 0x02D8 2 (text "u32_factor:0.1")
        (some (text "Ah")) telemetry [] []
    ∷ []

abbrev pub genstar_mppt_registers_d : List RegisterSpec
genstar_mppt_registers_d =
    holding_register (text "system_charge_ah_total") 0x02DA 2 (text "u32_factor:0.1")
      (some (text "Ah")) telemetry [] []
    ∷ holding_register (text "internal_charge_kwh_daily") 0x02E8 2 (text "f32") (some (text "kWh"))
        telemetry [] []
    ∷ holding_register (text "internal_charge_kwh_resettable") 0x02EA 2 (text "u32_factor:0.1")
        (some (text "kWh")) telemetry [] []
    ∷ holding_register (text "internal_charge_kwh_total") 0x02EC 2 (text "u32_factor:0.1")
        (some (text "kWh")) telemetry [] []
    ∷ holding_register (text "internal_charge_ah_daily") 0x02EE 2 (text "f32") (some (text "Ah"))
        telemetry [] []
    ∷ holding_register (text "internal_charge_ah_resettable") 0x02F0 2 (text "u32_factor:0.1")
        (some (text "Ah")) telemetry [] []
    ∷ holding_register (text "internal_charge_ah_total") 0x02F2 2 (text "u32_factor:0.1")
        (some (text "Ah")) telemetry [] []
    ∷ []

abbrev pub genstar_mppt_registers : List RegisterSpec
genstar_mppt_registers =
    genstar_mppt_registers_a ++ genstar_mppt_registers_b ++ genstar_mppt_registers_c
    ++ genstar_mppt_registers_d

abbrev pub genstar_mppt : DeviceProfileSpec
genstar_mppt = record {
  name = text "genstar_mppt";
  family = text "GenStar MPPT";
  aliases = text "genstar mppt" ∷ text "gs-mppt" ∷ text "gsmppt" ∷ [];
  source_id = text "genstar-mppt-modbus-v03";
  blocks = genstar_mppt_blocks;
  registers = genstar_mppt_registers;
  capabilities =
      text "rtu"
      ∷ text "usb"
      ∷ text "rs232"
      ∷ text "eia485"
      ∷ text "modbus_tcp"
      ∷ text "ethernet"
      ∷ text "wifi"
      ∷ text "bluetooth"
      ∷ text "charge"
      ∷ text "load"
      ∷ text "readyrail"
      ∷ text "device_identification"
      ∷ text "hourly_logger_summary"
      ∷ text "daily_logger_summary"
      ∷ text "event_logger"
      ∷ text "sd_logging"
      ∷ text "snmp_polling"
      ∷ [];
  detection_priority = 1;
  catalog_revision = text "";
  firmware_verified_max = none;
}
