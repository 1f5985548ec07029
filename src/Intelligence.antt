-- ===== src/Intelligence.antt =====
-- Device intelligence (src/morningstar_modbus/intelligence).
pub mod Validation
pub mod Resolver
