-- ===== src/PrivacyRequest.antt =====
-- The privacy request aggregate of packages/domain/src/privacy-request.
pub mod Status
pub mod Data
pub mod Effect
pub mod Validation
pub mod Steps
pub mod Planning
pub mod Execution
pub mod Recovery
pub mod Commands
pub mod Lifecycle
pub mod Attempts
pub mod Ledger
pub mod LedgerEffects
pub mod LedgerInvariant
pub mod Growth
pub mod EventQueue
pub mod PlanVersions
pub mod Unverified
mod Tests
pub mod StepScopes
pub mod Histories
pub mod Atomicity
pub mod Approval
pub mod Guards
pub mod Journal
