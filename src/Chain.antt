-- ===== src/Chain.antt =====
-- core/chain: the compressed form of transaction outputs.
pub mod Compress
pub mod Utxo
pub mod Error
pub mod Common
pub mod UtxoSet
pub mod Validate
