-- ===== src/HostPort.antt =====
-- internal/k8s/hostport.go: pods removed so that their replacements get the host's ports.
pub mod Unblock
pub mod Victims
pub mod Removal
mod Examples
