-- ===== src/Api.antt =====
-- backend/internal/httpapi: the routes, the guard of each and the handlers.
pub mod Site
pub mod Sessions
pub mod Tenant
pub mod Views
pub mod Runs
pub mod Routes
pub mod Effects
pub mod Authority
pub mod Tenants
pub mod Isolation
pub mod Examples
