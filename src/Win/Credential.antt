-- ===== src/Win/Credential.antt =====
-- win-pcbiounlock/src/CUnlockCredential.cpp: the tile that logs a user on.
pub mod State
pub mod Operations
pub mod Report
pub mod Reading
pub mod Serialization
pub mod Session
pub mod Follows
pub mod Start
pub mod Logon
