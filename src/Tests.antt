-- ===== src/Tests.antt =====
-- The theorems at concrete inputs, and the parameters they are tried with.
pub mod Samples
mod Texts
mod Crypt
mod Storage
mod Connection
mod Handler
mod Pam
mod Win
mod Tiles
mod Api
