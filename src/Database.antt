-- ===== src/Database.antt =====
-- The database's side of privacy requests: the repository of the aggregate, its audit log, and the
-- idempotency of commands, packages/database/src/repositories.
pub mod Tables
pub mod AuditLog
pub mod Repository
pub mod Chains
pub mod Saves
pub mod Idempotency
pub mod KeyRows
pub mod Answers
mod Tests
