-- ===== src/Bitcoind.antt =====
-- src/daemon/bitcoind/interface.rs: the client of bitcoind.
pub mod Sync
pub mod Run
pub mod Json
pub mod Client
pub mod Retry
pub mod Wallets
pub mod Thread
mod Tests
