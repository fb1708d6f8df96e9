-- ===== src/Helm.antt =====
-- Package helm (internal/helm): which release is current, read through the memo of decoded releases.
pub mod Probe
pub mod Release
pub mod Fresh
pub mod Newest
mod Examples
