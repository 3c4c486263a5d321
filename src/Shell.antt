-- ===== src/Shell.antt =====
-- The shells of src/shell: the formats of the terminal's escape sequences, and quoting.
pub mod Formats
pub mod Quoting
mod Tests
