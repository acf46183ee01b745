-- ===== src/Export.antt =====
-- internal/application/services/export_service.go: the export itself.
pub mod Metric
pub mod Selector
pub mod Split
pub mod Backend
pub mod Process
pub mod Plans
pub mod Adaptive
pub mod Service
pub mod Writer
pub mod Atomic
pub mod Rounds
pub mod Fuel
pub mod Batches
pub mod Archive
pub mod Finish
pub mod Halves
pub mod Labels
pub mod Failures
pub mod Retries
pub mod Again
pub mod Resume
mod Examples
