-- ===== src/Control.antt =====
-- src/daemon/control.rs: what the RPC commands and the signature fetcher do besides the database.
pub mod Signatures
pub mod Session
pub mod Coordinator
pub mod Keys
pub mod Vaults
pub mod Onchain
pub mod Servers
