-- ===== src/Database.antt =====
-- src/daemon/database: the tables, the queries and the statements that change them.
pub mod Schema
pub mod Interface
pub mod Marks
pub mod Deposits
pub mod Presigned
pub mod Spends
pub mod Signing
pub mod Integrity
pub mod Queries
pub mod Startup
mod Tests
