-- ===== src/Poller.antt =====
-- src/daemon/bitcoind/poller.rs and src/daemon/bitcoind/utils.rs: the thread that follows bitcoind.
-- A handler runs in a `World`: the database, the caches and the number of requests made.
pub mod Wallet
pub mod Tip
pub mod Unvaults
pub mod Setup
pub mod Deposits
pub mod Update
pub mod Watchonly
pub mod Main
pub mod Reorg
mod Tests
