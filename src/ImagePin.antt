-- ===== src/ImagePin.antt =====
-- Package imagepin (internal/imagepin/imagepin.go): which images the settings hold behind the chart.
pub mod Tags
pub mod Report
pub mod Order
pub mod Extracted
pub mod Apart
mod Examples
