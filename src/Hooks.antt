-- ===== src/Hooks.antt =====
-- Package hooks (internal/hooks/engine.go and types.go): what runs after an upgrade or a rollback.
pub mod Engine
pub mod Coverage
pub mod Runs
mod Examples
