-- ===== src/Runtime.antt =====
-- The continuous runtime (src/morningstar_modbus/runtime/watcher.py).
pub mod Endpoints
pub mod Watcher
pub mod Cycle
