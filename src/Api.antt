-- ===== src/Api.antt =====
-- common-cpp/src/api: what the desktop app asks for.
pub mod Regex
pub mod LocalV4
pub mod Rank
pub mod Interfaces
pub mod Sourced
pub mod Best
pub mod Bluetooth
pub mod BluetoothLimits
