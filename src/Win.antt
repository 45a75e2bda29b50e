-- ===== src/Win.antt =====
-- win-pcbiounlock/src: the Windows credential provider.
pub mod Results
pub mod Names
pub mod Kerb
pub mod KerbPack
pub mod KerbRoundTrip
pub mod KerbInside
pub mod Protect
pub mod AuthPackage
pub mod Credential
pub mod Provider
pub mod Listener
pub mod Repack
