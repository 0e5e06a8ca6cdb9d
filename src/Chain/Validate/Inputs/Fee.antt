-- ===== src/Chain/Validate/Inputs/Fee.antt =====
-- The fee of a transaction that passes the check of its inputs.
use boxd.Prelude.{
  ℕ, ◌+◌, ◌≤◌, ◌≡◌, refl, sym, ap, ◌∙◌, Bool, false, not, some, List, [], length, ltb, ◌==◌,
  if◌then◌else◌, arith,
}
use boxd.Prelude.Ends.{ok-bind, ok-unless, ok-injective}
use boxd.Prelude.Result.{Result, ok, err, ◌>>=◌}
use boxd.Prelude.Words.{sub64}
use boxd.Chain.Common.{total_supply}
use boxd.Chain.Error.{ChainError, spend_too_high, token_inputs_output_not_equal}
use boxd.Chain.UtxoSet.{UtxoSet}
use boxd.Chain.UtxoSet.Coins.Transfer.{makes_coins}
use boxd.Chain.Validate.Sane.{total_of}
use boxd.Chain.Validate.Inputs.{
  TokenAmounts, sum_inputs, sum_outputs, amounts_match, validate_tx_inputs,
}
use boxd.Chain.Validate.Inputs.Sums.{input_total, sum_inputs-total, sum_outputs-total}
use boxd.Types.Transaction.{Transaction}

module _ (equal_fold_box : List ℕ → Bool) (pow10 : ℕ → ℕ) where
  -- The tests behind the two sums.
  abbrev settle : ℕ × TokenAmounts → ℕ × TokenAmounts → Result ChainError ℕ
  settle (total_input, inputs) (total_output, outputs) =
      if ltb total_input total_output
      then err spend_too_high
      else if not (length outputs == length inputs)
      then err token_inputs_output_not_equal
      else if not (amounts_match outputs inputs)
      then err token_inputs_output_not_equal
      else ok (sub64 total_input total_output)

  validate_tx_inputs-sums :
      (u : UtxoSet) (tx : Transaction)
      → makes_coins tx ≡ false
      → validate_tx_inputs equal_fold_box pow10 u tx
        ≡ ◌>>=◌ {B = ℕ}
            (sum_inputs equal_fold_box pow10 u tx.vin 0 [])
            (λ ins. sum_outputs tx.vout 0 [] >>= (λ outs. settle ins outs))
  unfolding validate_tx_inputs
  validate_tx_inputs-sums u tx h = rw h refl

  -- An accepted transaction, that is no coinbase and no internal contract transaction and whose
  -- outputs sum to at most all coins: every input is a coin that can be spent, and the coins are
  -- worth the outputs and the fee, as numbers that do not wrap.
  pub validate_tx_inputs-balanced :
      (u : UtxoSet) (tx : Transaction) (fee : ℕ)
      → makes_coins tx ≡ false
      → total_of tx.vout ≤ total_supply
      → validate_tx_inputs equal_fold_box pow10 u tx ≡ ok fee
      → input_total u tx.vin ≡ some (fee + total_of tx.vout)
  validate_tx_inputs-balanced u tx fee h small e =
      let (ins, run, next) =
        ok-bind (sum_inputs equal_fold_box pow10 u tx.vin 0 []) _ fee
          (sym (validate_tx_inputs-sums u tx h) ∙ e) in
      let (outs, paid, last) = ok-bind (sum_outputs tx.vout 0 []) _ fee next in
      let (covered, rest) = ok-unless (ltb ins.0 outs.0) _ _ fee last in
      let (same_count, rest2) = ok-unless (not (length outs.1 == length ins.1)) _ _ fee rest in
      let (same_tokens, done) = ok-unless (not (amounts_match outs.1 ins.1)) _ _ fee rest2 in
      let (sum, is_sum, is_in, fits) =
        sum_inputs-total equal_fold_box pow10 u tx.vin 0 [] ins (omega arith) run in
      let is_out : outs.0 ≡ 0 + total_of tx.vout =
        sum_outputs-total tx.vout 0 [] outs (omega arith) paid in
      let is_fee : sub64 ins.0 outs.0 ≡ fee = ok-injective {E = ChainError} _ _ done in
      let enough : outs.0 ≤ ins.0 = ground (arith, covered) in
      is_sum ∙ ap some (omega (arith, is_in, is_out, is_fee, enough, fits))
