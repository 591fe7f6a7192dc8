-- ===== src/Pack.antt =====
-- src/ptp-pack.c: datasets of the protocol as bytes.
pub mod Params
pub mod Arrays
pub mod Descriptions
pub mod DeviceInfo
pub mod ObjectInfo
pub mod PropertyList
pub mod Storage
pub mod Strings
mod Tests
pub mod Times
pub mod Values
