-- ===== src/Rollout.antt =====
-- Package rollout (internal/rollout/rollout.go): what an upgrade is waiting for.
pub mod Pods
pub mod Text
pub mod Progress
pub mod Blockers
pub mod Components
pub mod Names
mod Examples
