-- ===== src/Chain/Compress.antt =====
-- core/chain/compress.go: transaction outputs on disk.
pub mod Vlq
pub mod Amount
pub mod PkScript
pub mod TxOut
