-- ===== src/TxLogic.antt =====
-- core/txlogic: what kind of transaction a transaction is.
pub mod Kind
