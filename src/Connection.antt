-- ===== src/Connection.antt =====
-- common-cpp/src/connection: the exchange with the phone.
pub mod Socket
pub mod Framing
pub mod Truncated
pub mod Writing
pub mod Server
pub mod Answers
pub mod InTime
pub mod Client
pub mod TcpClient
pub mod BtClient
pub mod TcpServer
pub mod Serving
pub mod Endings
pub mod Unlock
