-- ===== src/Domain.antt =====
-- backend/internal/domain: the drill's states, the recovery measurements and the assessment.
pub mod Status
pub mod Recovery
pub mod Lifecycle
pub mod Measures
pub mod Assessment
pub mod Examples
