-- ===== src/Util.antt =====
-- util: helpers of the whole program.
pub mod Merkle
