-- ===== src/Net.antt =====
-- Addresses, netmasks and the prefix tree (common/iputils.hh, common/iputils.cc, common/misc.cc).
pub mod Address
pub mod Mask
pub mod Tree
pub mod Prefix
pub mod Group
