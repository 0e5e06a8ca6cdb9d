-- ===== src/Chain/Validate.antt =====
-- core/chain/validate.go: the checks of a transaction that need no other data.
mod Tests
pub mod Sane
pub mod Inputs
pub mod Pool
pub mod Block
use boxd.Prelude.{
  ℕ, ◌+◌, ◌≤◌, ◌≡◌, Bool, true, false, not, ◌||◌, List, [], ◌∷◌, length, ltb, ◌==◌, if◌then◌else◌,
}
use boxd.Prelude.Result.{Result, ok, err, panic, ◌>>◌}
use boxd.Prelude.Words.{add64, int_lt, sub64}
use boxd.Chain.Common.{total_supply, is_null_out_point, is_coin_base, is_internal_contract}
use boxd.Chain.Error.{
  ChainError, block_time_out, future_block, utxos_oob, vouts_oob, bad_tx_out_value, bad_tx_input,
  bad_coinbase_script_len, no_tx_inputs, no_tx_outputs,
}
use boxd.Script.Interp.{lock_time_threshold}
use boxd.Types.Transaction.{TxIn, TxOut, Transaction}

abbrev pub max_vin_in_tx : ℕ
max_vin_in_tx = 256

abbrev pub max_vout_in_tx : ℕ
max_vout_in_tx = 256

abbrev pub min_coinbase_script_len : ℕ
min_coinbase_script_len = 2

abbrev pub max_coinbase_script_len : ℕ
max_coinbase_script_len = 1000

-- for _, txOut := range tx.Vout
unfoldable pub check_values : List TxOut → ℕ → Result ChainError (Unit {0})
check_values [] total_value = ok tt
check_values (tx_out ∷ vout) total_value =
    let value = tx_out.value in
    let total = add64 total_value value in
    if ltb total_supply value
    then err bad_tx_out_value
    else if ltb total value
    then err bad_tx_out_value
    else if ltb total_supply total
    then err bad_tx_out_value
    else check_values vout total

unfoldable pub check_inputs : List TxIn → Result ChainError (Unit {0})
check_inputs [] = ok tt
check_inputs (tx_in ∷ vin) =
    if is_null_out_point tx_in.prev_out_point then err bad_tx_input else check_inputs vin

-- tx.Vin[0] of a transaction that has an input.
unfoldable pub check_coinbase_script : List TxIn → Result ChainError (Unit {0})
check_coinbase_script [] = panic
check_coinbase_script (tx_in ∷ vin) =
    let slen = length tx_in.script_sig in
    if ltb slen min_coinbase_script_len || ltb max_coinbase_script_len slen
    then err bad_coinbase_script_len
    else ok tt

unfoldable pub validate_transaction_preliminary : Transaction → Result ChainError (Unit {0})
unfolding check_values check_inputs check_coinbase_script
validate_transaction_preliminary tx =
    if length tx.vin == 0
    then err no_tx_inputs
    else if length tx.vout == 0
    then err no_tx_outputs
    else if ltb max_vin_in_tx (length tx.vin)
    then err utxos_oob
    else if ltb max_vout_in_tx (length tx.vout)
    then err vouts_oob
    else check_values tx.vout 0
      >> (if is_coin_base tx || is_internal_contract tx
          then check_coinbase_script tx.vin
          else check_inputs tx.vin)

all_sequences_max : List TxIn → Bool
all_sequences_max [] = true
all_sequences_max (tx_in ∷ vin) =
    if not (tx_in.sequence == 0xffff_ffff) then false else all_sequences_max vin

-- A lock time is an int64, by its bit pattern.
unfoldable pub is_tx_finalized : Transaction → ℕ → ℕ → Bool
unfolding all_sequences_max
is_tx_finalized tx block_height block_time =
    if tx.lock_time == 0
    then true
    else if int_lt tx.lock_time
        (if int_lt tx.lock_time lock_time_threshold then block_height else block_time)
    then true
    else all_sequences_max tx.vin

abbrev pub max_block_time_out : ℕ
max_block_time_out = 1

-- The time of the clock and of the block, in seconds.
unfoldable pub verify_block_time_out : ℕ → ℕ → Result ChainError (Unit {0})
verify_block_time_out now time_stamp =
    if int_lt max_block_time_out (sub64 now time_stamp)
    then err block_time_out
    else if int_lt now time_stamp
    then err future_block
    else ok tt
