-- ===== src/Adapter.antt =====
-- The adapter that a customer's application runs: sdk/typescript/src.
pub mod Signature
pub mod Nonces
pub mod Resources
pub mod Erasure
pub mod Fetch
pub mod Recorded
pub mod Replay
mod Tests
