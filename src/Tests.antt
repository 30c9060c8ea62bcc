-- ===== src/Tests.antt =====
-- Concrete data and the theorems at work on it.
mod Data
mod Qualification
mod Configuration
mod Answers
mod Attempts
mod Queueing
mod Visits
mod Sessions
mod Members
mod Administration
mod Uploads
