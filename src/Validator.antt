-- ===== src/Validator.antt =====
-- services/form_validator.rs: the validation of answers and of form schemas, and the quiz score.
pub mod Answers
pub mod Accepted
pub mod Quiz
pub mod Sanity
