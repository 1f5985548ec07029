-- ===== src/Catalog/Families/TristarPwm.antt =====
-- The register table of src/morningstar_modbus/catalog/families/tristar_pwm.py.
use morningstar_modbus_api.Prelude.{ℕ, true, false, none, some, List, [], ◌∷◌}
use morningstar_modbus_api.Prelude.Text.{Text, text}
use morningstar_modbus_api.Catalog.Types.{
  RegisterBlock, RegisterSpec, DeviceProfileSpec, holding_block, holding_register, telemetry, state,
  fault, alarm, metadata, configuration,
}

abbrev control_modes : List (ℕ × Text)
control_modes =
    (0, text "CHARGE") ∷ (1, text "LOAD") ∷ (2, text "DIVERSION") ∷ (3, text "LIGHTING") ∷ []

abbrev charge_states : List (ℕ × Text)
charge_states =
    (0, text "START")
    ∷ (1, text "NIGHT_CHECK")
    ∷ (2, text "DISCONNECT")
    ∷ (3, text "NIGHT")
    ∷ (4, text "FAULT")
    ∷ (5, text "BULK")
    ∷ (6, text "PWM")
    ∷ (7, text "FLOAT")
    ∷ (8, text "EQUALIZE")
    ∷ []

abbrev faults : List (ℕ × Text)
faults =
    (0, text "external_short")
    ∷ (1, text "overcurrent")
    ∷ (2, text "fet_shorted")
    ∷ (3, text "software")
    ∷ (4, text "hvd")
    ∷ (5, text "controller_hot")
    ∷ (6, text "dip_changed")
    ∷ (7, text "settings_edit")
    ∷ (8, text "reset")
    ∷ (9, text "miswire")
    ∷ (10, text "rts_shorted")
    ∷ (11, text "rts_disconnected")
    ∷ []

abbrev alarms : List (ℕ × Text)
alarms =
    (0, text "rts_open")
    ∷ (1, text "rts_short")
    ∷ (2, text "rts_disconnected")
    ∷ (3, text "heatsink_sensor_open")
    ∷ (4, text "heatsink_sensor_short")
    ∷ (5, text "controller_hot")
    ∷ (6, text "current_limit")
    ∷ (7, text "current_offset")
    ∷ (8, text "battery_sense")
    ∷ (9, text "battery_sense_disconnected")
    ∷ (10, text "uncalibrated")
    ∷ (11, text "rts_miswire")
    ∷ (12, text "hvd")
    ∷ (13, text "high_duty")
    ∷ (14, text "miswire")
    ∷ (15, text "fet_open")
    ∷ (16, text "p12")
    ∷ (17, text "load_disconnect")
    ∷ []

abbrev pub tristar_pwm_blocks : List RegisterBlock
tristar_pwm_blocks =
    holding_block 0x0008 0x0016 telemetry false false
    ∷ holding_block 0xF000 0x000C metadata true true
    ∷ []

abbrev pub tristar_pwm_registers : List RegisterSpec
tristar_pwm_registers =
    holding_register (text "battery_voltage") 0x0008 1 (text "factor:0.002950897216796875")
      (some (text "V")) telemetry [] []
    ∷ holding_register (text "battery_sense_voltage") 0x0009 1 (text "factor:0.002950897216796875")
        (some (text "V")) telemetry [] []
    ∷ holding_register (text "array_or_load_voltage") 0x000A 1 (text "factor:0.00424652099609375")
        (some (text "V")) telemetry [] []
    ∷ holding_register (text "charge_current") 0x000B 1 (text "factor:0.002034515380859375")
        (some (text "A")) telemetry [] []
    ∷ holding_register (text "load_current") 0x000C 1 (text "factor:0.0096649169921875")
        (some (text "A")) telemetry [] []
    ∷ holding_register (text "battery_voltage_slow") 0x000D 1 (text "factor:0.002950897216796875")
        (some (text "V")) telemetry [] []
    ∷ holding_register (text "heatsink_temp") 0x000E 1 (text "s16") (some (text "C")) telemetry []
        []
    ∷ holding_register (text "battery_temp") 0x000F 1 (text "s16") (some (text "C")) telemetry [] []
    ∷ holding_register (text "target_voltage") 0x0010 1 (text "factor:0.002950897216796875")
        (some (text "V")) telemetry [] []
    ∷ holding_register (text "alarm_low") 0x0017 1 (text "raw") none alarm [] alarms
    ∷ holding_register (text "faults") 0x0018 1 (text "raw") none fault [] faults
    ∷ holding_register (text "dip_switch") 0x0019 1 (text "raw") none configuration [] []
    ∷ holding_register (text "control_mode") 0x001A 1 (text "raw") none state control_modes []
    ∷ holding_register (text "control_state") 0x001B 1 (text "raw") none state charge_states []
    ∷ holding_register (text "duty_cycle") 0x001C 1 (text "percent:230") (some (text "%")) telemetry
        [] []
    ∷ holding_register (text "alarm_high") 0x001D 1 (text "raw") none alarm [] []
    ∷ holding_register (text "serial_number") 0xF000 4 (text "ascii_lo_hi") none metadata [] []
    ∷ holding_register (text "hardware_version") 0xF00A 1 (text "raw") none metadata [] []
    ∷ holding_register (text "model_flag") 0xF00B 1 (text "raw") none metadata
        ((0, text "TS-45") ∷ (1, text "TS-60") ∷ []) []
    ∷ []

abbrev pub tristar_pwm : DeviceProfileSpec
tristar_pwm = record {
  name = text "tristar_pwm";
  family = text "TriStar PWM";
  aliases =
      text "tristar pwm"
      ∷ text "tristar-45"
      ∷ text "tristar-60"
      ∷ text "ts-45"
      ∷ text "ts-60"
      ∷ text "tristar"
      ∷ [];
  source_id = text "tristar-pwm-modbus-v07";
  blocks = tristar_pwm_blocks;
  registers = tristar_pwm_registers;
  capabilities =
      text "rtu"
      ∷ text "rs232"
      ∷ text "eia485"
      ∷ text "charge"
      ∷ text "load"
      ∷ text "diversion"
      ∷ text "lighting"
      ∷ [];
  detection_priority = 30;
  catalog_revision = text "";
  firmware_verified_max = none;
}
