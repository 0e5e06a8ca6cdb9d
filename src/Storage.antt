-- ===== src/Storage.antt =====
-- storage: the databases.
pub mod Memdb
pub mod Key
