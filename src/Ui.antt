-- ===== src/Ui.antt =====
-- The terminal widgets of uiterm, without what they draw.
pub mod Textview
pub mod Tree
pub mod Textbox
