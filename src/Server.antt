-- ===== src/Server.antt =====
-- src/daemon/jsonrpc/server.rs: the socket of the RPC. Bytes are numbers; what the operating system
-- answers to the n-th call is a parameter of the functions that make the calls.
pub mod Stream
pub mod Requests
pub mod Connections
pub mod Loop
mod Tests
