-- ===== src/Models.antt =====
-- models/: the condition and form data types.
pub mod Condition
pub mod Form
