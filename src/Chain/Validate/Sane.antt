-- ===== src/Chain/Validate/Sane.antt =====
-- What a transaction that passes the first checks looks like.
use boxd.Prelude.{
  ℕ, ◌+◌, ◌≤◌, ◌≡◌, ◌↔◌, refl, inl, inr, false, ◌||◌, List, [], ◌∷◌, length, All, ltb,
  if◌then◌else◌, arith, Bool-cases, ◌⊎◌, le→ltb, lt→ltb, eq→==, ne→==,
}
use native.Mathlib.Decide.{dec_lt}
use boxd.Prelude.Result.{Result, ok, err, panic, out_of_fuel, ◌>>◌}
use boxd.Prelude.Words.{add64}
use boxd.Chain.Common.{total_supply, is_null_out_point, is_coin_base, is_internal_contract}
use boxd.Chain.Error.{ChainError}
use boxd.Chain.Validate.{
  max_vin_in_tx, max_vout_in_tx, min_coinbase_script_len, max_coinbase_script_len, check_values,
  check_inputs, check_coinbase_script, validate_transaction_preliminary,
}
use boxd.Types.Transaction.{TxIn, TxOut, Transaction}

-- The sum of the outputs, as it is.
abbrev pub total_of : List TxOut → ℕ
total_of [] = 0
total_of (tx_out ∷ vout) = tx_out.value + total_of vout

-- The first input's script has the length that a coinbase's must have.
abbrev pub IsCoinbaseInput : List TxIn → Type 0
IsCoinbaseInput [] = Unit
IsCoinbaseInput (tx_in ∷ vin) =
    (min_coinbase_script_len ≤ length tx_in.script_sig)
    × (length tx_in.script_sig ≤ max_coinbase_script_len)

abbrev pub IsNotNull : TxIn → Type 0
IsNotNull tx_in = is_null_out_point tx_in.prev_out_point ≡ false

abbrev pub CountsFit : Transaction → Type 0
CountsFit tx =
    (1 ≤ length tx.vin)
    × (length tx.vin ≤ max_vin_in_tx)
    × (1 ≤ length tx.vout)
    × (length tx.vout ≤ max_vout_in_tx)

-- Inputs and outputs in number, a sum of the outputs that is no more than all coins, and inputs of
-- the right form.
abbrev pub IsSane : Transaction → Type 0
IsSane tx =
    CountsFit tx
    × (total_of tx.vout ≤ total_supply)
    × (if is_coin_base tx || is_internal_contract tx
        then IsCoinbaseInput tx.vin
        else All IsNotNull tx.vin)

-- The checked sum is the sum: no addition wraps.
pub check_values-total :
    (vout : List TxOut) (total : ℕ)
    → total ≤ total_supply
    → (check_values vout total ≡ ok tt) ↔ (total + total_of vout ≤ total_supply)
unfolding check_values
check_values-total [] total h = (λ q. omega arith, λ q. refl)
check_values-total (tx_out ∷ vout) total h = elim (dec_lt total_supply tx_out.value) [
  | yes over ↦
      rw (lt→ltb total_supply tx_out.value over) (λ q. absurd cc, λ q. absurd (omega arith))
  | no fits ↦
      let no_wrap : add64 total tx_out.value ≡ total + tx_out.value = omega arith in
      rw
        (
          le→ltb total_supply tx_out.value (omega arith),
          no_wrap,
          le→ltb (total + tx_out.value) tx_out.value (omega arith),
        )
        (elim (dec_lt total_supply (total + tx_out.value)) [
          | yes over ↦
              rw (lt→ltb total_supply (total + tx_out.value) over)
                (λ q. absurd cc, λ q. absurd (omega arith))
          | no more ↦
              let rest = check_values-total vout (total + tx_out.value) (omega arith) in
              rw (le→ltb total_supply (total + tx_out.value) (omega arith))
                (λ q. omega (arith, rest.0 q), λ q. rest.1 (omega arith))
        ])
]

check_inputs-IsNotNull : (vin : List TxIn) → (check_inputs vin ≡ ok tt) ↔ All IsNotNull vin
unfolding check_inputs
check_inputs-IsNotNull [] = (λ q. tt, λ q. refl)
check_inputs-IsNotNull (tx_in ∷ vin) = elim (Bool-cases (is_null_out_point tx_in.prev_out_point)) [
  | inl h ↦ rw h (λ q. absurd cc, λ q. absurd (cc q.0))
  | inr h ↦ let rest = check_inputs-IsNotNull vin in rw h (λ q. (refl, rest.0 q), λ q. rest.1 q.1)
]

check_coinbase_script-fits :
    (vin : List TxIn) → 1 ≤ length vin → (check_coinbase_script vin ≡ ok tt) ↔ IsCoinbaseInput vin
unfolding check_coinbase_script
check_coinbase_script-fits [] h = absurd (omega arith)
check_coinbase_script-fits (tx_in ∷ vin) h =
    elim (Bool-cases (
      ltb (length tx_in.script_sig) min_coinbase_script_len
      || ltb max_coinbase_script_len (length tx_in.script_sig))) [
        | inl e ↦ rw e (λ q. absurd cc, λ q. absurd (ground (arith, e, q)))
        | inr e ↦ rw e (λ q. ground (arith, e), λ q. refl)
      ]

abbrev last_checks : Transaction → Result ChainError (Unit {0})
last_checks tx =
    check_values tx.vout 0
    >> (if is_coin_base tx || is_internal_contract tx
        then check_coinbase_script tx.vin
        else check_inputs tx.vin)

counts_lem :
    (tx : Transaction)
    → (CountsFit tx × (validate_transaction_preliminary tx ≡ last_checks tx))
      ⊎ ((CountsFit tx → ⊥) × (validate_transaction_preliminary tx ≡ ok tt → ⊥))
unfolding validate_transaction_preliminary
counts_lem tx = elim (dec_lt 0 (length tx.vin)) [
  | no bad ↦ inr (λ q. omega arith, rw (eq→== (length tx.vin) 0 (omega arith)) (λ q. cc))
  | yes has_input ↦ elim (dec_lt 0 (length tx.vout)) [
    | no bad ↦ inr (
      λ q. omega arith,
      rw (ne→== (length tx.vin) 0 (λ e. omega arith), eq→== (length tx.vout) 0 (omega arith))
          (λ q. cc),
    )
    | yes has_output ↦ elim (dec_lt max_vin_in_tx (length tx.vin)) [
      | yes bad ↦ inr (
        λ q. omega arith,
        rw
            (
              ne→== (length tx.vin) 0 (λ e. omega arith),
              ne→== (length tx.vout) 0 (λ e. omega arith),
              lt→ltb max_vin_in_tx (length tx.vin) bad,
            )
            (λ q. cc),
      )
      | no few_inputs ↦ elim (dec_lt max_vout_in_tx (length tx.vout)) [
        | yes bad ↦ inr (
          λ q. omega arith,
          rw
              (
                ne→== (length tx.vin) 0 (λ e. omega arith),
                ne→== (length tx.vout) 0 (λ e. omega arith),
                le→ltb max_vin_in_tx (length tx.vin) (omega arith),
                lt→ltb max_vout_in_tx (length tx.vout) bad,
              )
              (λ q. cc),
        )
        | no few_outputs ↦ inl (
          (omega arith, omega arith, omega arith, omega arith),
          rw
              (
                ne→== (length tx.vin) 0 (λ e. omega arith),
                ne→== (length tx.vout) 0 (λ e. omega arith),
                le→ltb max_vin_in_tx (length tx.vin) (omega arith),
                le→ltb max_vout_in_tx (length tx.vout) (omega arith),
              )
              refl,
        )
      ]
    ]
  ]
]

-- A sequence succeeds when both parts do.
both_succeed :
    (m k : Result ChainError (Unit {0})) → ((m >> k) ≡ ok tt) ↔ ((m ≡ ok tt) × (k ≡ ok tt))
both_succeed (ok a) k = (λ q. (refl, q), λ q. q.1)
both_succeed (err e) k = (λ q. absurd cc, λ q. absurd (cc q.0))
both_succeed panic k = (λ q. absurd cc, λ q. absurd (cc q.0))
both_succeed out_of_fuel k = (λ q. absurd cc, λ q. absurd (cc q.0))

form_lem :
    (tx : Transaction)
    → 1 ≤ length tx.vin
    → ((if is_coin_base tx || is_internal_contract tx
          then check_coinbase_script tx.vin
          else check_inputs tx.vin)
        ≡ ok tt)
      ↔ (if is_coin_base tx || is_internal_contract tx
          then IsCoinbaseInput tx.vin
          else All IsNotNull tx.vin)
form_lem tx h = elim (Bool-cases (is_coin_base tx || is_internal_contract tx)) [
  | inl e ↦ rw e (check_coinbase_script-fits tx.vin h)
  | inr e ↦ rw e (check_inputs-IsNotNull tx.vin)
]

-- `ValidateTransactionPreliminary` accepts a transaction exactly when it has from 1 to 256 inputs
-- and outputs, the sum of its outputs as it is (no addition wraps) is at most all coins, and its
-- inputs have the right form: a first script of 2 to 1000 bytes for a coinbase or an internal
-- contract transaction, and otherwise no null outpoint.
pub validate_transaction_preliminary-IsSane :
    (tx : Transaction) → (validate_transaction_preliminary tx ≡ ok tt) ↔ IsSane tx
validate_transaction_preliminary-IsSane tx = elim (counts_lem tx) [
  | inr (bad, refused) ↦ (λ q. absurd (refused q), λ q. absurd (bad q.0))
  | inl (counts, e) ↦
      let parts = both_succeed (check_values tx.vout 0) (
        if is_coin_base tx || is_internal_contract tx
        then check_coinbase_script tx.vin
        else check_inputs tx.vin) in
      let sums = check_values-total tx.vout 0 (omega arith) in
      let form = form_lem tx counts.0 in
      rw e (
        λ q. (counts, omega (arith, sums.0 (parts.0 q).0), form.0 (parts.0 q).1),
        λ q. parts.1 (sums.1 (omega (arith, q.1)), form.1 q.2),
      )
]
