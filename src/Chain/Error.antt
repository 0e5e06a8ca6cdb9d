-- ===== src/Chain/Error.antt =====
-- core/error.go: the errors of the chain that the models return. `other` stands for an error that
-- is made in place, with its text.
use boxd.Script.Error

pub data ChainError : Type 0 where
  no_transactions : ChainError
  first_tx_not_coinbase : ChainError
  multiple_coinbases : ChainError
  bad_merkle_root : ChainError
  duplicate_tx : ChainError
  unfinalized_tx : ChainError
  token_inputs_output_not_equal : ChainError
  token_invalid_name : ChainError
  block_time_out : ChainError
  future_block : ChainError
  max_txs_size_exceeded : ChainError
  non_standard_transaction : ChainError
  utxos_oob : ChainError
  vouts_oob : ChainError
  bad_tx_out_value : ChainError
  bad_tx_input : ChainError
  bad_coinbase_script_len : ChainError
  missing_tx_out : ChainError
  spend_too_high : ChainError
  double_spend_tx : ChainError
  no_tx_inputs : ChainError
  no_tx_outputs : ChainError
  tx_out_index_oob : ChainError
  add_existing_utxo : ChainError
  utxo_not_found : ChainError
  script_error : Error.Error → ChainError
  other : ChainError
