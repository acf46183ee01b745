-- ===== src/Importer.antt =====
-- internal/importer/server/server.go: the server that imports the archives of vmgather.
pub mod Defs
pub mod Timestamps
pub mod DropLabels
pub mod Scanner
pub mod Lines
pub mod Stream
pub mod Import
pub mod Endpoints
pub mod Retention
pub mod Bundles
pub mod Verify
pub mod JobDefs
pub mod Analyze
pub mod Analysis
pub mod Profiles
pub mod Jobs
pub mod Requests
mod Examples
