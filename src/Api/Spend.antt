-- ===== src/Api/Spend.antt =====
-- src/daemon/jsonrpc/api.rs: the commands of the managers about Spend transactions.
pub mod Create
pub mod Store
pub mod Vet
pub mod Set
pub mod Entries
