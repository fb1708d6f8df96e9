-- ===== src/Drift.antt =====
-- Package drift (internal/drift): whether the patches of the hooks are in effect, and what was set by hand.
pub mod Check
pub mod Differing
pub mod Reported
pub mod Chart
pub mod Lookup
pub mod PlainKeys
pub mod Fields
pub mod Manual
pub mod Listed
pub mod Marking
pub mod Marked
pub mod HookCover
pub mod Covered
pub mod Skipped
mod Examples
