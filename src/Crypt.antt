-- ===== src/Crypt.antt =====
-- common-cpp/src/utils/CryptUtils.cpp and CryptUtils.h: the encrypted packets.
pub mod Memory
pub mod Clock
pub mod Ssl
pub mod Aes
pub mod Packet
pub mod Sealed
pub mod RoundTrip
pub mod Bounds
