-- ===== src/Api.antt =====
-- src/daemon/jsonrpc/api.rs: the commands of the JSONRPC API.
pub mod Role
pub mod Presigned
pub mod Broadcast
pub mod Spend
pub mod Lists
pub mod Info
mod Tests
