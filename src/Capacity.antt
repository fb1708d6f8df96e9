-- ===== src/Capacity.antt =====
-- Package capacity (internal/capacity/capacity.go) and the effective request of a pod that it measures
-- (internal/k8s/schedulable.go): whether what the chart would create can be placed.
pub mod Request
pub mod Manifest
pub mod Check
pub mod Fits
pub mod Levels
mod Examples
