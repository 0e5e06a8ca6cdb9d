-- ===== src/Chain/UtxoSet/Revert.antt =====
-- core/chain/utxoset.go: how a transaction and a block are undone.
use boxd.Prelude.{ℕ, suc, ◌||◌, none, some, List, [], ◌∷◌, ◌++◌, reverse, get_elem?, if◌then◌else◌}
use boxd.Prelude.Result.{Result, ok, panic, ◌>>=◌}
use boxd.Chain.Common.{is_coin_base, is_internal_contract}
use boxd.Chain.Error.{ChainError}
use boxd.Script.Standard.{is_op_return_script, is_contract_pubkey}
use boxd.Types.Block.{TypedTx, Block}
use boxd.Types.Transaction.{OutPoint, TxIn, TxOut, is_contract_type}
use boxd.Types.Utxo.{new_utxo_wrap, un_spend}
use boxd.Chain.UtxoSet.{UtxoSet, View, find_utxo, put_utxo, spend_utxo}

-- The outputs of a transaction, as spent.
unfoldable pub spend_outputs : List ℕ → ℕ → List TxOut → UtxoSet → UtxoSet
unfolding spend_utxo
spend_outputs hash idx [] u = u
spend_outputs hash idx (vout ∷ vouts) u = spend_outputs hash (suc idx) vouts (
    if is_op_return_script vout.script_pub_key || is_contract_pubkey vout.script_pub_key
    then u
    else spend_utxo (record { hash = hash; index = idx }) u)

module _ (view : View) where
  open view use {load_block_info}

  -- The entry of an input that is no longer in the set, from the transaction that made it. An
  -- unknown transaction or an output it does not have is a panic.
  unfoldable pub reload : OutPoint → UtxoSet → Result ChainError UtxoSet
  unfolding put_utxo new_utxo_wrap
  reload out_point u = elim (load_block_info out_point.hash) [
    | none ↦ panic
    | some (height, prev_tx) ↦ elim (get_elem? prev_tx.vout out_point.index) [
      | none ↦ panic
      | some prev_out ↦
          if is_op_return_script prev_out.script_pub_key
          then ok u
          else ok
              (put_utxo u out_point (new_utxo_wrap prev_out.value prev_out.script_pub_key height))
    ]
  ]

  unfoldable pub unspend_input : OutPoint → UtxoSet → Result ChainError UtxoSet
  unfolding find_utxo put_utxo un_spend reload is_contract_type
  unspend_input out_point u =
      if is_contract_type out_point then ok u else elim (find_utxo u out_point) [
        | some w ↦ ok (put_utxo u out_point (un_spend w))
        | none ↦ reload out_point u
      ]

  unfoldable pub unspend_inputs : List TxIn → UtxoSet → Result ChainError UtxoSet
  unfolding unspend_input
  unspend_inputs [] u = ok u
  unspend_inputs (tx_in ∷ vin) u = do
    next ← unspend_input tx_in.prev_out_point u
    unspend_inputs vin next

  unfoldable pub revert_tx : TypedTx → UtxoSet → Result ChainError UtxoSet
  unfolding spend_outputs unspend_inputs is_coin_base is_internal_contract
  revert_tx t u =
      let removed = spend_outputs t.hash 0 t.tx.vout u in
      if is_coin_base t.tx || is_internal_contract t.tx
      then ok removed
      else unspend_inputs t.tx.vin removed

  unfoldable pub revert_txs : List TypedTx → UtxoSet → Result ChainError UtxoSet
  unfolding revert_tx
  revert_txs [] u = ok u
  revert_txs (t ∷ txs) u = do next ← revert_tx t u; revert_txs txs next

  -- From the last transaction to the first.
  unfoldable pub revert_block : Block → UtxoSet → Result ChainError UtxoSet
  unfolding revert_txs
  revert_block block u = revert_txs (reverse (block.txs ++ block.internal_txs)) u
