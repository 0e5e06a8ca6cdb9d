-- ===== src/Chain/UtxoSet/Apply.antt =====
-- core/chain/utxoset.go: what a transaction and a block add to the set and spend.
use boxd.Prelude.{ℕ, suc, ◌||◌, none, some, List, [], ◌∷◌, get_elem?, ◌==◌, if◌then◌else◌}
use boxd.Prelude.Result.{Result, ok, err, panic, out_of_fuel, ◌>>=◌}
use boxd.Prelude.Words.{add64}
use boxd.Chain.Common.{is_coin_base, is_internal_contract}
use boxd.Chain.Error.{ChainError, tx_out_index_oob, add_existing_utxo, script_error, other}
use boxd.Script.Address.{extract_address}
use boxd.Script.Contract.{parse_contract_info}
use boxd.Script.Standard.{is_op_return_script, is_contract_pubkey, is_pay_to_pub_key_hash}
use boxd.Types.Block.{TypedTx, Block}
use boxd.Types.Transaction.{OutPoint, TxIn, TxOut}
use boxd.Types.Utxo.{new_utxo_wrap, set_value, add_value}
use boxd.Chain.UtxoSet.{
  UtxoSet, View, hash160, normalize_address_hash, find_utxo, put_utxo, mark_normal, spend_utxo,
  get_contract_utxo_from_state_db,
}

unfoldable pub spend_inputs : ℕ → List TxIn → UtxoSet → UtxoSet
unfolding spend_utxo mark_normal
spend_inputs kind [] u = u
spend_inputs kind (tx_in ∷ vin) u =
    spend_inputs kind vin
      (mark_normal kind tx_in.prev_out_point (spend_utxo tx_in.prev_out_point u))

internal_outputs : List ℕ → ℕ → List TxOut → ℕ → UtxoSet → UtxoSet
unfolding put_utxo new_utxo_wrap
internal_outputs hash idx [] height u = u
internal_outputs hash idx (vout ∷ vouts) height u = internal_outputs hash (suc idx) vouts height (
    if is_pay_to_pub_key_hash vout.script_pub_key
    then put_utxo u (record { hash = hash; index = idx })
        (new_utxo_wrap vout.value vout.script_pub_key height)
    else u)

unfoldable pub apply_internal_tx : TypedTx → ℕ → UtxoSet → UtxoSet
unfolding internal_outputs
apply_internal_tx t height u = internal_outputs t.hash 0 t.tx.vout height u

unfoldable pub apply_internal_txs : List TypedTx → ℕ → UtxoSet → UtxoSet
unfolding apply_internal_tx
apply_internal_txs [] height u = u
apply_internal_txs (t ∷ txs) height u = apply_internal_txs txs height (apply_internal_tx t height u)

module _ (view : View) where
  open view use {is_contract_addr, make_contract_address}

  -- A plain output to the address of a contract adds to the entry of the contract.
  unfoldable pub pay_contract : List ℕ → ℕ → UtxoSet → Result ChainError UtxoSet
  unfolding get_contract_utxo_from_state_db normalize_address_hash find_utxo put_utxo set_value
  pay_contract addr value u =
      if value == 0
      then ok u
      else let out_point : OutPoint = record { hash = normalize_address_hash addr; index = 0 } in
        elim (find_utxo u out_point) [
          | some w ↦ ok (put_utxo u out_point (set_value w (add64 w.value value)))
          | none ↦ do
            stored ← get_contract_utxo_from_state_db view addr
            elim stored [
              | none ↦ err other
              | some w ↦ ok (put_utxo u out_point (set_value w (add64 w.value value)))
            ]
        ]

  -- A common output.
  unfoldable pub apply_common : TypedTx → TxOut → ℕ → ℕ → UtxoSet → Result ChainError UtxoSet
  unfolding hash160 pay_contract find_utxo put_utxo mark_normal new_utxo_wrap
  apply_common t vout tx_out_idx block_height u = elim (extract_address vout.script_pub_key) [
    | err e ↦ err other
    | panic ↦ panic
    | out_of_fuel ↦ out_of_fuel
    | ok address ↦ elim (hash160 address) [
      | none ↦ panic
      | some addr ↦
          if is_contract_addr addr
          then pay_contract addr vout.value u
          else let out_point : OutPoint = record { hash = t.hash; index = tx_out_idx } in
            elim (find_utxo u out_point) [
              | some w ↦ err add_existing_utxo
              | none ↦ ok (
                  mark_normal t.kind out_point (
                    put_utxo u out_point
                      (new_utxo_wrap vout.value vout.script_pub_key block_height)))
            ]
    ]
  ]

  -- An output of a contract: a new entry of value 0, or a value added to an entry that is there.
  unfoldable pub apply_contract : TxOut → ℕ → UtxoSet → Result ChainError UtxoSet
  unfolding normalize_address_hash find_utxo put_utxo add_value new_utxo_wrap
  apply_contract vout block_height u = elim (parse_contract_info vout.script_pub_key) [
    | err e ↦ err (script_error e)
    | panic ↦ panic
    | out_of_fuel ↦ out_of_fuel
    | ok (from, contract_addr, nonce) ↦ elim contract_addr [
      | none ↦
          let out_point : OutPoint = record {
            hash = normalize_address_hash (make_contract_address from nonce);
            index = 0;
          } in
          let added = put_utxo u out_point (new_utxo_wrap 0 vout.script_pub_key block_height) in
          ok (record added { contract_utxos = out_point ∷ added.contract_utxos })
      | some addr ↦
          let out_point : OutPoint = record { hash = normalize_address_hash addr; index = 0 } in
          elim (find_utxo u out_point) [
            | none ↦ err other
            | some w ↦
                let added = put_utxo u out_point (add_value w vout.value) in
                ok (record added { contract_utxos = out_point ∷ added.contract_utxos })
          ]
    ]
  ]

  unfoldable pub apply_utxo : TypedTx → ℕ → ℕ → UtxoSet → Result ChainError UtxoSet
  unfolding apply_common apply_contract
  apply_utxo t tx_out_idx block_height u = elim (get_elem? t.tx.vout tx_out_idx) [
    | none ↦ err tx_out_index_oob
    | some vout ↦
        if is_contract_pubkey vout.script_pub_key
        then apply_contract vout block_height u
        else apply_common t vout tx_out_idx block_height u
  ]

  -- An entry that is there is skipped, any other error ends the loop.
  unfoldable pub skip_existing : UtxoSet → Result ChainError UtxoSet → Result ChainError UtxoSet
  skip_existing u (err add_existing_utxo) = ok u
  skip_existing u r = r

  -- for txOutIdx, txOut := range tx.Vout
  unfoldable pub apply_outputs : TypedTx → ℕ → List TxOut → ℕ → UtxoSet → Result ChainError UtxoSet
  unfolding apply_utxo skip_existing
  apply_outputs t idx [] block_height u = ok u
  apply_outputs t idx (vout ∷ vouts) block_height u = do
    next ←
        (if is_op_return_script vout.script_pub_key
          then ok u
          else skip_existing u (apply_utxo t idx block_height u))
    apply_outputs t (suc idx) vouts block_height next

  unfoldable pub apply_tx : TypedTx → ℕ → UtxoSet → Result ChainError UtxoSet
  unfolding apply_outputs spend_inputs is_coin_base is_internal_contract
  apply_tx t block_height u = do
    added ← apply_outputs t 0 t.tx.vout block_height u
    ok (
        if is_coin_base t.tx || is_internal_contract t.tx
        then added
        else spend_inputs t.kind t.tx.vin added)

  unfoldable pub apply_txs : List TypedTx → ℕ → UtxoSet → Result ChainError UtxoSet
  unfolding apply_tx
  apply_txs [] height u = ok u
  apply_txs (t ∷ txs) height u = do next ← apply_tx t height u; apply_txs txs height next

  unfoldable pub apply_block : Block → UtxoSet → Result ChainError UtxoSet
  unfolding apply_txs
  apply_block block u = apply_txs block.txs block.header.height u
