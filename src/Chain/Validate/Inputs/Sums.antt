-- ===== src/Chain/Validate/Inputs/Sums.antt =====
-- The checked sums of inputs and outputs are the sums as they are.
use boxd.Prelude.{
  ℕ, ◌+◌, ◌≤◌, ◌≡◌, refl, sym, ap, ◌∙◌, inl, inr, Bool, false, ◌||◌, Option, none, some, List, [],
  ◌∷◌, ltb, if◌then◌else◌, arith, Option-cases,
}
use boxd.Prelude.Ends.{ok-bind, ok-unless, ok-injective}
use boxd.Prelude.Result.{ok, err, ◌>>=◌}
use boxd.Prelude.Words.{add64}
use boxd.Chain.Common.{total_supply}
use boxd.Chain.Error.{ChainError, missing_tx_out}
use boxd.Chain.UtxoSet.{UtxoSet, find_utxo}
use boxd.Chain.UtxoSet.Coins.{Coin, coin, unspent_of, unspent}
use boxd.Chain.Validate.Sane.{total_of}
use boxd.Chain.Validate.Inputs.{
  TokenAmounts, add_input, input_tokens, sum_inputs, sum_outputs, transferred,
}
use boxd.Script.Token.{is_token_transfer}
use boxd.Types.Transaction.{OutPoint, TxIn, TxOut}
use boxd.Types.Utxo.{UtxoWrap, is_spent}

add_value_of : Option Coin → Option ℕ → Option ℕ
add_value_of (some c) (some total) = some (c.value + total)
add_value_of none total = none
add_value_of (some c) none = none

-- The sum of the coins that the inputs spend; none when one of them is not there.
unfoldable pub input_total : UtxoSet → List TxIn → Option ℕ
unfolding add_value_of
input_total u [] = some 0
input_total u (tx_in ∷ vin) = add_value_of (unspent u tx_in.prev_out_point) (input_total u vin)

unspent-at :
    (u : UtxoSet) (op : OutPoint) (w : UtxoWrap)
    → find_utxo u op ≡ some w
    → is_spent w ≡ false
    → unspent u op ≡ some (coin w)
unfolding unspent unspent_of
unspent-at u op w e h = ap unspent_of e ∙ rw h refl

pub sum_outputs-total :
    (vout : List TxOut) (total : ℕ) (amounts : TokenAmounts) (r : ℕ × TokenAmounts)
    → total + total_of vout ≤ total_supply
    → sum_outputs vout total amounts ≡ ok r
    → r.0 ≡ total + total_of vout
unfolding sum_outputs
sum_outputs-total [] total amounts r h e =
    let same : (total, amounts) ≡ r = ok-injective {E = ChainError} (total, amounts) r e in
    let first : r.0 ≡ total = ap (λ (p : ℕ × TokenAmounts). p.0) (sym same) in omega (arith, first)
sum_outputs-total (tx_out ∷ vout) total amounts r h e =
    let (next, done, rest) =
      ok-bind
        (if is_token_transfer tx_out.script_pub_key
          then transferred tx_out.script_pub_key amounts
          else ok amounts)
        (λ next. sum_outputs vout (add64 total tx_out.value) next) r e in
    let no_wrap : add64 total tx_out.value ≡ total + tx_out.value = omega arith in
    omega
      (arith, no_wrap, sum_outputs-total vout (add64 total tx_out.value) next r (omega arith) rest)

add_input-sum :
    (total value next : ℕ)
    → total ≤ total_supply
    → add_input total value ≡ ok next
    → (next ≡ total + value) × (next ≤ total_supply)
unfolding add_input
add_input-sum total value next h e =
    let (small, rest) = ok-unless (ltb total_supply value) _ _ next e in
    let (fits, last) =
      ok-unless (ltb (add64 total value) total || ltb total_supply (add64 total value)) _ _ next
        rest in
    let same : add64 total value ≡ next = ok-injective {E = ChainError} _ _ last in
    let bound : value ≤ total_supply = ground (arith, small) in
    (omega (arith, same, bound), ground (arith, same, bound, fits))

-- The input's entry is there and is not spent, and the loop went on with it.
module _ (equal_fold_box : List ℕ → Bool) (pow10 : ℕ → ℕ) where
  sum_inputs-missing :
      (u : UtxoSet) (tx_in : TxIn) (vin : List TxIn) (total : ℕ) (amounts : TokenAmounts)
      → find_utxo u tx_in.prev_out_point ≡ none
      → sum_inputs equal_fold_box pow10 u (tx_in ∷ vin) total amounts ≡ err missing_tx_out
  unfolding sum_inputs
  sum_inputs-missing u tx_in vin total amounts e = rw (sum_inputs, e) refl

  sum_inputs-found :
      (u : UtxoSet) (tx_in : TxIn) (vin : List TxIn) (total : ℕ) (amounts : TokenAmounts)
      (w : UtxoWrap)
      → find_utxo u tx_in.prev_out_point ≡ some w
      → sum_inputs equal_fold_box pow10 u (tx_in ∷ vin) total amounts ≡ (
          if is_spent w
          then err missing_tx_out
          else ◌>>=◌ {B = ℕ × TokenAmounts} (add_input total w.value) (λ next_total.
            input_tokens equal_fold_box pow10 tx_in.prev_out_point w.script amounts
            >>= (λ next. sum_inputs equal_fold_box pow10 u vin next_total next)))
  unfolding sum_inputs
  sum_inputs-found u tx_in vin total amounts w e = rw (sum_inputs, e) refl

  pub sum_inputs-total :
      (u : UtxoSet) (vin : List TxIn) (total : ℕ) (amounts : TokenAmounts) (r : ℕ × TokenAmounts)
      → total ≤ total_supply
      → sum_inputs equal_fold_box pow10 u vin total amounts ≡ ok r
      → (sum : ℕ) × (input_total u vin ≡ some sum) × (r.0 ≡ total + sum) × (r.0 ≤ total_supply)
  unfolding sum_inputs input_total add_value_of coin
  sum_inputs-total u [] total amounts r h e =
      let same : (total, amounts) ≡ r = ok-injective {E = ChainError} (total, amounts) r e in
      let first : r.0 ≡ total = ap (λ (p : ℕ × TokenAmounts). p.0) (sym same) in
      (0, refl, omega (arith, first), omega (arith, first))
  sum_inputs-total u (tx_in ∷ vin) total amounts r h e =
      elim (Option-cases (find_utxo u tx_in.prev_out_point)) [
        | inl absent ↦ absurd (cc (e, sum_inputs-missing u tx_in vin total amounts absent))
        | inr (w, there) ↦
            let (live, run) =
              ok-unless (is_spent w) _ _ r
                (sym (sum_inputs-found u tx_in vin total amounts w there) ∙ e) in
            let (next_total, added, run2) = ok-bind (add_input total w.value) _ r run in
            let (next, tokens, run3) =
              ok-bind (input_tokens equal_fold_box pow10 tx_in.prev_out_point w.script amounts) _ r
                run2 in
            let (exact, bound) = add_input-sum total w.value next_total h added in
            let (sum, paid, is_sum, fits) = sum_inputs-total u vin next_total next r bound run3 in
            (
              w.value + sum,
              rw (unspent-at u tx_in.prev_out_point w there live, paid) refl,
              omega (arith, is_sum, exact),
              fits,
            )
      ]
