-- ===== src/Jobs.antt =====
-- internal/server/export_jobs.go: the export jobs of the web server, run by one goroutine each.
pub mod Defs
pub mod Manager
pub mod Progress
pub mod World
pub mod Records
pub mod Invariant
pub mod Steps
pub mod Monotone
pub mod Finished
mod Examples
