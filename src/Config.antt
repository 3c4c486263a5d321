-- ===== src/Config.antt =====
-- The configuration of src/config.
pub mod Responsive
pub mod Segment
