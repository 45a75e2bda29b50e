-- ===== src/Handler.antt =====
-- common-cpp/src/handler: an unlock with all of a user's devices, and the keys that cancel it.
pub mod Result
pub mod RunServer
pub mod Rounds
pub mod Outcome
pub mod Servers
pub mod Threads
pub mod Epilogue
pub mod Interleaving
pub mod Progress
pub mod Waiting
pub mod Returning
pub mod Deadlock
pub mod Stuck
pub mod Stored
pub mod Loads
pub mod KeyScanner
