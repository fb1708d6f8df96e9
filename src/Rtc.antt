-- ===== src/Rtc.antt =====
-- internal/rtc/callpath.go: which ways of calling a deployment supports.
pub mod CallPath
pub mod Override
mod Examples
