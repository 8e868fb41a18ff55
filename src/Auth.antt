-- ===== src/Auth.antt =====
-- Roles and permissions: packages/auth.
pub mod Permissions
pub mod Laws
mod Tests
