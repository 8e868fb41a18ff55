-- ===== src/Pairing.antt =====
-- Pairing agents with environments: apps/api/src/modules/agents/pairing-service.ts.
pub mod Data
pub mod Store
pub mod Consume
pub mod Events
pub mod Laws
pub mod Replacement
mod Tests
