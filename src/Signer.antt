-- ===== src/Signer.antt =====
-- The policies of apps/signer/src/authorization-policy.ts.
pub mod Data
pub mod Policy
pub mod Lease
pub mod Laws
pub mod LeaseLaws
mod Tests
