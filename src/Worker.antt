-- ===== src/Worker.antt =====
-- backend/internal/drill/worker.go: the worker pool and the run of one drill.
pub mod World
pub mod Flow
pub mod Database
pub mod Backup
pub mod Stages
pub mod Run
pub mod Examples
