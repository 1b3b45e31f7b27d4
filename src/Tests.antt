-- ===== src/Tests.antt =====
-- Runs of the model on concrete data.
pub mod Networks
pub mod Entries
pub mod Windows
pub mod Database
pub mod Siblings
