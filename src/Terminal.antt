-- ===== src/Terminal.antt =====
-- The writer of the prompt's text, src/terminal.
pub mod History
pub mod Anchor
pub mod Output
pub mod Sequences
pub mod Coloring
pub mod Writer
pub mod Modes
pub mod Samples
mod Tests
