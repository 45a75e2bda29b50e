-- ===== src/Utils.antt =====
-- common-cpp/src/utils/Utils.cpp and Utils.h: texts, hexadecimal print, random texts, time.
pub mod Split
pub mod Affix
pub mod Hex
pub mod Random
pub mod Bluetooth
