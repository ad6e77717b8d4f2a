-- ===== src/Security.antt =====
-- The security layer (app/security): roles and permissions, and tenant isolation.
pub mod Rbac
pub mod TenantContext
pub mod Encryption
pub mod Access
mod Tests
