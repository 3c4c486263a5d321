-- ===== src/Text.antt =====
-- The text helpers of src/text.
pub mod Percentage
