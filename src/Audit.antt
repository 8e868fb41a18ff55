-- ===== src/Audit.antt =====
-- The hash chain of audit events: packages/domain/src/audit.
pub mod Chain
pub mod Laws
mod Tests
