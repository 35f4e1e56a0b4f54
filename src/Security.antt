-- ===== src/Security.antt =====
-- Secrets and passwords (backend/internal/security).
pub mod Secrets
pub mod Tenancy
pub mod Passwords
pub mod Verification
pub mod Examples
