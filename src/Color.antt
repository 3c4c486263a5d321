-- ===== src/Color.antt =====
-- The colours of src/color: palettes, keywords and cycles.
pub mod Palette
pub mod Keywords
pub mod Ansi
pub mod Cycle
mod Tests
