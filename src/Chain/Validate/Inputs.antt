-- ===== src/Chain/Validate/Inputs.antt =====
-- core/chain/validate.go: the inputs of a transaction against the set, its fee and its tokens.
pub mod Fee
pub mod Sums
use boxd.Prelude.{
  ℕ, ◌+◌, ◌-◌, ◌*◌, ◌%◌, ◌^◌, Bool, true, false, not, ◌||◌, Option, none, some, List, [], ◌∷◌, ◌++◌,
  suc, length, ltb, ◌==◌, if◌then◌else◌,
}
use boxd.Prelude.Assoc.{find, store}
use boxd.Prelude.Result.{Result, ok, err, panic, out_of_fuel, ◌>>=◌, ◌>>◌}
use boxd.Prelude.Words.{add64, sub64, mul64}
use boxd.Chain.Common.{total_supply, is_coin_base, is_internal_contract}
use boxd.Chain.Error.{
  ChainError, token_inputs_output_not_equal, token_invalid_name, bad_tx_out_value, missing_tx_out,
  spend_too_high, script_error,
}
use boxd.Chain.UtxoSet.{UtxoSet, find_utxo}
use boxd.Script.Interp.{validate}
use boxd.Script.Signature.{Crypto}
use boxd.Script.Error
use boxd.Script.Token.{
  IssueParams, TransferParams, is_token_issue, is_token_transfer, get_issue_params,
  get_transfer_params,
}
use boxd.Types.OutPointKey.{out_point_key}
use boxd.Types.Transaction.{OutPoint, TxIn, TxOut, Transaction}
use boxd.Types.Utxo.{UtxoWrap, is_spent}

-- The amounts of tokens by their identifiers.
abbrev pub TokenAmounts : Type 0
TokenAmounts = List (OutPoint × ℕ)

amount_or_zero : Option ℕ → ℕ
amount_or_zero none = 0
amount_or_zero (some v) = v

-- amounts[id] += amount
unfoldable pub add_amount : OutPoint → ℕ → TokenAmounts → TokenAmounts
unfolding amount_or_zero
add_amount token_id amount amounts =
    store out_point_key token_id
      (add64 (amount_or_zero (find out_point_key amounts token_id)) amount) amounts

-- A script that looks like a token's and cannot be read makes the parameters nil, and the code
-- reads their fields.
unfoldable pub transferred : List ℕ → TokenAmounts → Result ChainError TokenAmounts
unfolding add_amount
transferred script amounts = elim (get_transfer_params script) [
  | ok params ↦ ok (add_amount params.token_id params.amount amounts)
  | out_of_fuel ↦ out_of_fuel
  | _ ↦ panic
]

-- for _, txOut := range tx.Vout
unfoldable pub sum_outputs : List TxOut → ℕ → TokenAmounts → Result ChainError (ℕ × TokenAmounts)
unfolding transferred
sum_outputs [] total amounts = ok (total, amounts)
sum_outputs (tx_out ∷ vout) total amounts = do
  next ←
      (if is_token_transfer tx_out.script_pub_key
        then transferred tx_out.script_pub_key amounts
        else ok amounts)
  sum_outputs vout (add64 total tx_out.value) next

-- Every amount of the outputs is that of the inputs.
unfoldable pub amounts_match : TokenAmounts → TokenAmounts → Bool
amounts_match [] ins = true
amounts_match ((token_id, amount) ∷ outs) ins = elim (find out_point_key ins token_id) [
  | none ↦ false
  | some u ↦ if amount == u then amounts_match outs ins else false
]

-- The sum with one more input in it.
unfoldable pub add_input : ℕ → ℕ → Result ChainError ℕ
add_input total utxo_amount =
    if ltb total_supply utxo_amount
    then err bad_tx_out_value
    else if ltb (add64 total utxo_amount) total || ltb total_supply (add64 total utxo_amount)
    then err bad_tx_out_value
    else ok (add64 total utxo_amount)

-- strings.EqualFold with "box", and uint64(math.Pow10) of a number of decimals.
module _ (equal_fold_box : List ℕ → Bool) (pow10 : ℕ → ℕ) where
  unfoldable pub issued : OutPoint → List ℕ → TokenAmounts → Result ChainError TokenAmounts
  unfolding add_amount
  issued token_id script amounts = elim (get_issue_params script) [
    | ok params ↦
        if equal_fold_box params.name
        then err token_invalid_name
        else ok (add_amount token_id (mul64 params.total_supply (pow10 params.decimals)) amounts)
    | out_of_fuel ↦ out_of_fuel
    | _ ↦ panic
  ]

  unfoldable pub input_tokens : OutPoint → List ℕ → TokenAmounts → Result ChainError TokenAmounts
  unfolding issued transferred
  input_tokens prev_out_point script amounts =
      if is_token_issue script
      then issued prev_out_point script amounts
      else if is_token_transfer script
      then transferred script amounts
      else ok amounts

  -- for i, txIn := range tx.Vin
  unfoldable pub sum_inputs :
      UtxoSet → List TxIn → ℕ → TokenAmounts → Result ChainError (ℕ × TokenAmounts)
  unfolding input_tokens add_input
  sum_inputs u [] total amounts = ok (total, amounts)
  sum_inputs u (tx_in ∷ vin) total amounts = elim (find_utxo u tx_in.prev_out_point) [
    | none ↦ err missing_tx_out
    | some w ↦ if is_spent w then err missing_tx_out else do
      next_total ← add_input total w.value
      next ← input_tokens tx_in.prev_out_point w.script amounts
      sum_inputs u vin next_total next
  ]

  -- The fee.
  unfoldable pub validate_tx_inputs : UtxoSet → Transaction → Result ChainError ℕ
  unfolding sum_inputs sum_outputs amounts_match
  validate_tx_inputs u tx = if is_coin_base tx || is_internal_contract tx then ok 0 else do
    (total_input, inputs) ← sum_inputs u tx.vin 0 []
    (total_output, outputs) ← sum_outputs tx.vout 0 []
    if ltb total_input total_output
        then err spend_too_high
        else if not (length outputs == length inputs)
        then err token_inputs_output_not_equal
        else if not (amounts_match outputs inputs)
        then err token_inputs_output_not_equal
        else ok (sub64 total_input total_output)

-- What is left of a script's check for later.
pub record ScriptItem : Type 0 where
  pub tx : Transaction
  pub tx_in_idx : ℕ
  pub script_sig : List ℕ
  pub prev_script_pub_key : List ℕ

unfoldable pub in_script {ℓ} : {A : Type ℓ} → Result Error.Error A → Result ChainError A
in_script (ok a) = ok a
in_script (err e) = err (script_error e)
in_script panic = panic
in_script out_of_fuel = out_of_fuel

module _ (crypto : Crypto) where
  -- for txInIdx, txIn := range tx.Vin
  unfoldable pub check_scripts_loop :
      UtxoSet
      → Transaction
      → Bool
      → ℕ
      → List TxIn
      → List ScriptItem
      → Result ChainError (List ScriptItem)
  unfolding in_script
  check_scripts_loop u tx skip_validation idx [] items = ok items
  check_scripts_loop u tx skip_validation idx (tx_in ∷ vin) items =
      elim (find_utxo u tx_in.prev_out_point) [
        | none ↦ err missing_tx_out
        | some w ↦
            if is_spent w
            then err missing_tx_out
            else if skip_validation
            then check_scripts_loop u tx skip_validation (suc idx) vin (
                items
                ++ (record {
                  tx = tx;
                  tx_in_idx = idx;
                  script_sig = tx_in.script_sig;
                  prev_script_pub_key = w.script;
                }
                    ∷ []))
            else in_script (validate crypto tx_in.script_sig w.script tx idx)
              >> check_scripts_loop u tx skip_validation (suc idx) vin items
      ]

  unfoldable pub check_tx_scripts :
      UtxoSet → Transaction → Bool → Result ChainError (List ScriptItem)
  unfolding check_scripts_loop
  check_tx_scripts u tx skip_validation = check_scripts_loop u tx skip_validation 0 tx.vin []
