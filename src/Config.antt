-- ===== src/Config.antt =====
-- Package config (internal/config): the section files of an installation and the settings they merge to.
pub mod Sections
pub mod Merge
pub mod Nodes
pub mod Comments
pub mod Store
pub mod Migrate
mod Examples
