-- ===== src/Storage.antt =====
-- common-cpp/src/storage: the paired devices and the settings, each one JSON file.
pub mod Json
pub mod PairedDevice
pub mod AppStorage
