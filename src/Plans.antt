-- ===== src/Plans.antt =====
-- Execution plans and their approval: apps/api/src/modules/execution-plans/plan-service.ts and
-- apps/api/src/modules/approvals/approval-service.ts.
pub mod Data
pub mod Service
pub mod Steps
pub mod Laws
pub mod Selection
pub mod Approvals
pub mod ApprovalLaws
mod Tests
