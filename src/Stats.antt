-- ===== src/Stats.antt =====
-- The time-windowed statistics (common/twmap.hh).
pub mod Member
pub mod Entry
pub mod Reads
pub mod Listing
pub mod Windows
pub mod Sums
pub mod Saved
pub mod Whole
pub mod Db
pub mod Wrapper
