-- ===== src/Controllers.antt =====
-- Physical controllers: lifecycle (src/morningstar_modbus/controllers).
pub mod Lifecycle
