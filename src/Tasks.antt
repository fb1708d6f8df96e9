-- ===== src/Tasks.antt =====
-- Package tasks (internal/tasks/tasks.go): the settings page, from fields to edits of section files.
pub mod Fields
pub mod Checks
pub mod Edits
pub mod Blocks
pub mod Placed
pub mod Single
pub mod Shown
pub mod ReadBack
pub mod Frame
pub mod Accepted
pub mod Catalogue
mod Examples
