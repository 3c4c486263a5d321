-- ===== src/Template.antt =====
-- src/template: the texts of segments.
pub mod Choice
