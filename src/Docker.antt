-- ===== src/Docker.antt =====
-- backend/internal/drill/docker.go: the sandboxes.
pub mod Names
pub mod Executor
pub mod Admission
pub mod Confinement
pub mod Removal
pub mod Examples
