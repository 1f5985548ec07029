-- ===== src/Polling.antt =====
-- The polling component (src/morningstar_modbus/polling/service.py).
pub mod Samples
pub mod Traffic
pub mod Limiter
pub mod Benchmark
pub mod AutoPoll
pub mod Tests
