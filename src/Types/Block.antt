-- ===== src/Types/Block.antt =====
-- core/types/block.go and the cached fields of core/types/transaction.go: a transaction with its
-- hash and its type, and a block.
use boxd.Prelude.{ℕ, List}
use boxd.Types.Transaction.{Transaction}

abbrev pub unknown_tx : ℕ
unknown_tx = 0

abbrev pub pay_to_pubk_tx : ℕ
pay_to_pubk_tx = 1

abbrev pub contract_tx : ℕ
contract_tx = 2

abbrev pub token_issue_tx : ℕ
token_issue_tx = 4

abbrev pub token_transfer_tx : ℕ
token_transfer_tx = 5

abbrev pub split_tx : ℕ
split_tx = 8

abbrev pub error_tx : ℕ
error_tx = 0xffff_ffff

-- `hash` is what TxHash returns, `kind` the field Type.
pub record TypedTx : Type 0 where
  pub tx : Transaction
  pub hash : List ℕ
  pub kind : ℕ

pub record BlockHeader : Type 0 where
  pub txs_root : List ℕ
  pub time_stamp : ℕ
  pub height : ℕ

pub record Block : Type 0 where
  pub header : BlockHeader
  pub txs : List TypedTx
  pub internal_txs : List TypedTx
