-- ===== src/Records.antt =====
-- The tables of the tenants (backend/internal/database/resources.go): assets, sources, policies and
-- drills, their pages, and the creation and cancellation of drills.
pub mod Pages
pub mod Assets
pub mod Drills
pub mod Examples
