-- ===== src/NodeHist.antt =====
-- internal/nodehist/nodehist.go: nodes whose capacity changed.
pub mod Detect
pub mod Changes
mod Examples
