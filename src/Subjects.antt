-- ===== src/Subjects.antt =====
-- Encrypted subject envelopes and the binding of subjects to requests:
-- apps/api/src/modules/privacy-requests/subject-envelope-service.ts.
pub mod Data
pub mod Validation
pub mod Envelopes
pub mod Requests
pub mod Duplicates
pub mod Binding
pub mod BindingParts
pub mod Lookups
pub mod Bindings
pub mod Rivals
pub mod Candidates
pub mod Placement
pub mod Uniqueness
pub mod Soundness
pub mod Rebinding
mod Tests
