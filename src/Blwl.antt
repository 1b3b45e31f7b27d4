-- ===== src/Blwl.antt =====
-- The black- and whitelists (wforce/blackwhitelist.hh, wforce/blackwhitelist.cc).
pub mod Table
pub mod Act
pub mod Redis
pub mod Lists
pub mod Api
pub mod Load
pub mod Keys
pub mod Expiry
pub mod Quiet
pub mod Outbound
pub mod Reload
pub mod Contents
pub mod Changes
pub mod Deletes
pub mod Addresses
pub mod Returns
pub mod Purge
pub mod Distinct
pub mod Reachable
