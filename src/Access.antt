-- ===== src/Access.antt =====
-- backend/internal/security/rbac.go and the guard of backend/internal/httpapi/middleware.go.
pub mod Roles
pub mod Guard
pub mod Privilege
pub mod Examples
