-- ===== src/Config.antt =====
-- The configuration (src/morningstar_modbus/config).
pub mod Settings
