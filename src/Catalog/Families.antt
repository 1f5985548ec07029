-- ===== src/Catalog/Families.antt =====
-- The register tables of the product families (src/morningstar_modbus/catalog/families).
pub mod Common
pub mod TristarPwm
pub mod TristarMppt
pub mod SunsaverMppt
pub mod ProstarPwm
pub mod ProstarMppt
pub mod TristarMppt600v
pub mod SunsaverDuo
pub mod SuresineClassic
pub mod SuresineGen2
pub mod RelayDriver
pub mod GenstarMppt
pub mod Readyedge
pub mod GenstarMpptSystemMetering
pub mod Decodes
mod Tests
