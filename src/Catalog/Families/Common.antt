-- ===== src/Catalog/Families/Common.antt =====
-- The state, fault and alarm names of src/morningstar_modbus/catalog/common.py.
use morningstar_modbus_api.Prelude.{ℕ, List, [], ◌∷◌, ◌++◌}
use morningstar_modbus_api.Prelude.Text.{Text, text}

abbrev pub tristar_mppt_charge_states : List (ℕ × Text)
tristar_mppt_charge_states =
    (0, text "START")
    ∷ (1, text "NIGHT_CHECK")
    ∷ (2, text "DISCONNECT")
    ∷ (3, text "NIGHT")
    ∷ (4, text "FAULT")
    ∷ (5, text "MPPT")
    ∷ (6, text "ABSORPTION")
    ∷ (7, text "FLOAT")
    ∷ (8, text "EQUALIZE")
    ∷ (9, text "SLAVE")
    ∷ []

abbrev pub tristar_mppt_led_states : List (ℕ × Text)
tristar_mppt_led_states =
    (0, text "LED_START")
    ∷ (1, text "LED_START2")
    ∷ (2, text "LED_BRANCH")
    ∷ (3, text "FAST_GREEN_BLINK")
    ∷ (4, text "SLOW_GREEN_BLINK")
    ∷ (5, text "GREEN_BLINK_1HZ")
    ∷ (6, text "GREEN")
    ∷ (7, text "UNDEFINED_7")
    ∷ (8, text "YELLOW")
    ∷ (9, text "UNDEFINED_9")
    ∷ (10, text "BLINK_RED")
    ∷ (11, text "RED")
    ∷ (12, text "RED_YELLOW_GREEN_ERROR")
    ∷ (13, text "RED_OR_YELLOW_GREEN_ERROR")
    ∷ (14, text "RED_OR_GREEN_YELLOW_ERROR")
    ∷ (15, text "RED_YELLOW_ERROR_HIGH_TEMP_DISCONNECT")
    ∷ (16, text "RED_GREEN_ERROR_HIGH_VOLTAGE_DISCONNECT")
    ∷ (17, text "RED_OR_YELLOW_GREEN_OR_YELLOW_ERROR")
    ∷ (18, text "GREEN_YELLOW_RED_ERROR")
    ∷ (19, text "GREEN_YELLOW_RED_ERROR_X2")
    ∷ []

abbrev pub tristar_mppt_daily_flags : List (ℕ × Text)
tristar_mppt_daily_flags =
    (0, text "reset_detected")
    ∷ (1, text "equalize_triggered")
    ∷ (2, text "entered_float")
    ∷ (3, text "alarm_occurred")
    ∷ (4, text "fault_occurred")
    ∷ []

abbrev pub pwm_charge_states : List (ℕ × Text)
pwm_charge_states =
    (0, text "START")
    ∷ (1, text "NIGHT_CHECK")
    ∷ (2, text "DISCONNECT")
    ∷ (3, text "NIGHT")
    ∷ (4, text "FAULT")
    ∷ (5, text "BULK")
    ∷ (6, text "ABSORPTION")
    ∷ (7, text "FLOAT")
    ∷ (8, text "EQUALIZE")
    ∷ []

abbrev pub prostar_mppt_charge_states : List (ℕ × Text)
prostar_mppt_charge_states = tristar_mppt_charge_states ++ ((10, text "FIXED") ∷ [])

abbrev pub load_states : List (ℕ × Text)
load_states =
    (0, text "START")
    ∷ (1, text "LOAD_ON")
    ∷ (2, text "LVD_WARNING")
    ∷ (3, text "LVD")
    ∷ (4, text "FAULT")
    ∷ (5, text "DISCONNECT")
    ∷ []

abbrev pub tristar_mppt_faults : List (ℕ × Text)
tristar_mppt_faults =
    (0, text "overcurrent")
    ∷ (1, text "fets_shorted")
    ∷ (2, text "software")
    ∷ (3, text "battery_hvd")
    ∷ (4, text "array_hvd")
    ∷ (5, text "settings_switch_changed")
    ∷ (6, text "custom_settings_edit")
    ∷ (7, text "rts_shorted")
    ∷ (8, text "rts_disconnected")
    ∷ (9, text "eeprom_retry_limit")
    ∷ (11, text "slave_control_timeout")
    ∷ []

abbrev pub tristar_mppt_alarms : List (ℕ × Text)
tristar_mppt_alarms =
    (0, text "rts_open")
    ∷ (1, text "rts_shorted")
    ∷ (2, text "rts_disconnected")
    ∷ (3, text "heatsink_sensor_open")
    ∷ (4, text "heatsink_sensor_shorted")
    ∷ (5, text "high_temperature_current_limit")
    ∷ (6, text "current_limit")
    ∷ (7, text "current_offset")
    ∷ (8, text "battery_sense_out_of_range")
    ∷ (9, text "battery_sense_disconnected")
    ∷ (10, text "uncalibrated")
    ∷ (11, text "rts_miswire")
    ∷ (12, text "hvd")
    ∷ (14, text "system_miswire")
    ∷ (15, text "mosfet_open")
    ∷ (16, text "p12_voltage_off")
    ∷ (17, text "high_input_voltage_current_limit")
    ∷ (18, text "adc_input_max")
    ∷ (19, text "controller_reset")
    ∷ []

abbrev pub prostar_alarms : List (ℕ × Text)
prostar_alarms =
    (0, text "rts_open")
    ∷ (1, text "rts_short")
    ∷ (2, text "rts_disconnected")
    ∷ (3, text "heatsink_sensor_open")
    ∷ (4, text "heatsink_sensor_short")
    ∷ (5, text "heatsink_hot")
    ∷ (6, text "current_limit")
    ∷ (7, text "current_offset")
    ∷ (8, text "battery_sense_out_of_range")
    ∷ (9, text "battery_sense_disconnected")
    ∷ (10, text "uncalibrated")
    ∷ (11, text "battery_temperature_out_of_range")
    ∷ (12, text "fp10_supply")
    ∷ (13, text "fet_open")
    ∷ (14, text "array_current_offset")
    ∷ (15, text "load_current_offset")
    ∷ (16, text "3v_supply")
    ∷ (19, text "controller_reset")
    ∷ (20, text "lvd")
    ∷ (21, text "log_timeout")
    ∷ (22, text "eeprom_failure")
    ∷ []

abbrev pub prostar_mppt_array_faults : List (ℕ × Text)
prostar_mppt_array_faults =
    (0, text "overcurrent_phase_1")
    ∷ (1, text "fet_shorted")
    ∷ (2, text "software")
    ∷ (3, text "battery_hvd")
    ∷ (4, text "array_hvd")
    ∷ (5, text "eeprom_edit")
    ∷ (6, text "rts_shorted")
    ∷ (7, text "rts_disconnected")
    ∷ (8, text "local_temp_sensor_failed")
    ∷ (9, text "battery_lvd")
    ∷ (10, text "slave_timeout")
    ∷ (11, text "dip_changed")
    ∷ []

abbrev pub load_faults : List (ℕ × Text)
load_faults =
    (0, text "external_short")
    ∷ (1, text "overcurrent")
    ∷ (2, text "fet_shorted")
    ∷ (3, text "software")
    ∷ (4, text "hvd")
    ∷ (5, text "heatsink_overtemp")
    ∷ (6, text "settings_changed")
    ∷ []

abbrev pub sunsaver_mppt_alarms : List (ℕ × Text)
sunsaver_mppt_alarms =
    (0, text "rts_open")
    ∷ (1, text "rts_short")
    ∷ (2, text "rts_disconnected")
    ∷ (3, text "heatsink_sensor_open")
    ∷ (4, text "heatsink_sensor_short")
    ∷ (5, text "heatsink_hot")
    ∷ (6, text "current_limit")
    ∷ (7, text "current_offset")
    ∷ (10, text "uncalibrated")
    ∷ (11, text "rts_miswire")
    ∷ (14, text "system_miswire")
    ∷ (15, text "fet_open")
    ∷ (16, text "p12_voltage_off")
    ∷ (17, text "high_array_voltage_current_limit")
    ∷ []

abbrev pub suresine_classic_load_states : List (ℕ × Text)
suresine_classic_load_states =
    (0, text "STARTUP")
    ∷ (1, text "LOAD_ON")
    ∷ (2, text "LVD_WARNING")
    ∷ (3, text "LVD")
    ∷ (4, text "FAULT")
    ∷ (5, text "LOAD_DISCONNECTED")
    ∷ (6, text "LOAD_OFF")
    ∷ (8, text "STANDBY")
    ∷ []

abbrev pub suresine_gen2_led_states : List (ℕ × Text)
suresine_gen2_led_states =
    (0, text "ALL_OFF")
    ∷ (1, text "OK_OFF")
    ∷ (2, text "OK_ON")
    ∷ (3, text "OK_STANDBY")
    ∷ (4, text "LVD_WARNING")
    ∷ (5, text "LVD_OFF")
    ∷ (6, text "CRITICAL_FAULT_RESET")
    ∷ (7, text "FAULT_OFF")
    ∷ []
