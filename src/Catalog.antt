-- ===== src/Catalog.antt =====
-- The register catalog (src/morningstar_modbus/catalog).
pub mod Types
pub mod Compatibility
pub mod Scaling
pub mod Decode
pub mod Families
pub mod Words
pub mod Naming
pub mod Derived
pub mod Profile
pub mod Registry
