-- ===== src/Api/Presigned.antt =====
-- src/daemon/jsonrpc/api.rs: `revocationtxs` and `unvaulttx`, by which the signatures of the
-- stakeholder on the presigned transactions of a vault are stored and shared.
pub mod Checks
pub mod Commands
pub mod Vetted
pub mod Effects
pub mod Unvault
pub mod Shared
