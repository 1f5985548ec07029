-- ===== src/Protocol.antt =====
-- The read-only Modbus codec (src/morningstar_modbus/protocol).
pub mod Crc
pub mod Codec
