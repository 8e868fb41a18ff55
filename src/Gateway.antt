-- ===== src/Gateway.antt =====
-- The agent gateway: apps/api/src/modules/agent-gateway. Jobs and messages as the database keeps
-- them, the authentication of messages, and the routes that agents poll.
pub mod Data
pub mod Messages
pub mod Transports
pub mod Jobs
pub mod Authenticate
pub mod Polling
pub mod Calls
pub mod Replay
pub mod Handoff
pub mod Leases
pub mod Exclusion
pub mod LeaseSpec
pub mod Lock
pub mod Waiting
pub mod Routes
mod Tests
