-- ===== src/Domain.antt =====
-- domain/valueobject and domain/entity: values decoded from controller registers.
pub mod Register
pub mod Mode
pub mod FanSpeed
pub mod Firmware
pub mod Temperature
pub mod OperatingState
pub mod DeviceConfig
pub mod ErrorCode
pub mod Snapshot
pub mod Catalog
