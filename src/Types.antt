-- ===== src/Types.antt =====
-- core/types: transactions.
pub mod Transaction
pub mod Utxo
pub mod Block
pub mod OutPointKey
