-- ===== src/Restore.antt =====
-- Package restore (internal/restore): putting a homeserver back from an archive.
pub mod Ports
pub mod Run
pub mod Server
mod Triple
pub mod Verdict
pub mod Rollback
pub mod Filling
pub mod Outcome
pub mod Database
pub mod Healthy
mod Examples
