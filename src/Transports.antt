-- ===== src/Transports.antt =====
-- The read-only Modbus clients (src/morningstar_modbus/transports/modbus.py).
pub mod Stream
pub mod Exchange
pub mod Tcp
pub mod Client
pub mod Rtu
