-- ===== src/Chain/Common/Subsidy.antt =====
-- The coinbase that the chain makes passes the chain's own checks.
use native.Mathlib.Nat.{div-le_self, div-one, div-div-eq-div-mul, pow-suc}
use boxd.Prelude.{
  ℕ, zero, suc, ◌+◌, ◌*◌, ◌/◌, ◌^◌, ◌≤◌, ◌<◌, ◌≡◌, refl, sym, ap, ◌∙◌, true, List, [], ◌∷◌, ◌++◌,
  length, length-append, bytes_equal, arith, lt→ltb,
}
use boxd.Prelude.Result.{ok}
use boxd.Chain.Common.{
  base_subsidy, subsidy_reduction_interval, calc_block_subsidy, create_coinbase_tx, is_coin_base,
}
use boxd.Chain.Validate.{validate_transaction_preliminary}
use boxd.Chain.Validate.Sane.{IsSane, total_of, validate_transaction_preliminary-IsSane}
use boxd.Script.Builder.{
  Script, add_operand, operand_prefix, pay_to_pub_key_hash_script,
  standard_coinbase_signature_script,
}
use boxd.Script.Bytes.{bytes_of_big, length-bytes_of_big}
use boxd.Types.Transaction.{new_null_out_point}

pub calc_block_subsidy-le : (height : ℕ) → calc_block_subsidy height ≤ base_subsidy
unfolding calc_block_subsidy
calc_block_subsidy-le height = div-le_self base_subsidy (2 ^ (height / subsidy_reduction_interval))

length-small_operand :
    (s : Script) (operand : List ℕ)
    → length operand ≤ 4
    → length (add_operand s operand) ≡ length s + 1 + length operand
unfolding add_operand operand_prefix
length-small_operand s operand h = rw (lt→ltb (length operand) 0x4c (omega arith)) (
    omega (
      arith,
      length-append (s ++ (length operand ∷ [])) operand,
      length-append s (length operand ∷ []),
    ))

coinbase_script_length :
    (height : ℕ)
    → height < 2 ^ 32
    → (2 ≤ length (standard_coinbase_signature_script height))
      × (length (standard_coinbase_signature_script height) ≤ 6)
unfolding standard_coinbase_signature_script
coinbase_script_length height h =
    let few : length (bytes_of_big height) ≤ 4 = length-bytes_of_big 4 height (omega arith) in
    let zero_few : length (bytes_of_big 0) ≤ 0 = length-bytes_of_big 0 0 (omega arith) in
    let first = length-small_operand [] (bytes_of_big height) few in
    let second =
      length-small_operand (add_operand [] (bytes_of_big height)) (bytes_of_big 0) (omega arith) in
    (omega (arith, first, second), omega (arith, first, second, few, zero_few))

create_coinbase_tx-is_coin_base :
    (addr : List ℕ) (height : ℕ) → is_coin_base (create_coinbase_tx addr height) ≡ true
unfolding is_coin_base create_coinbase_tx new_null_out_point bytes_equal
create_coinbase_tx-is_coin_base addr height = refl

coinbase_IsSane :
    (addr : List ℕ) (height : ℕ) → height < 2 ^ 32 → IsSane (create_coinbase_tx addr height)
unfolding create_coinbase_tx
coinbase_IsSane addr height h =
    let size = coinbase_script_length height h in
    let paid = calc_block_subsidy-le height in
    rw (create_coinbase_tx-is_coin_base addr height) (
      (omega arith, omega arith, omega arith, omega arith),
      omega (arith, paid),
      (size.0, omega (arith, size.1)),
    )

-- The subsidy after so many halvings.
abbrev pub halved : ℕ → ℕ → ℕ
halved zero v = v
halved (suc era) v = halved era v / 2

halved_lem : (era v : ℕ) → v / 2 ^ era ≡ halved era v
halved_lem zero v = div-one v
halved_lem (suc era) v =
    ap (λ (d : ℕ). v / d) (pow-suc 2 era)
    ∙ sym (div-div-eq-div-mul v (2 ^ era) 2)
    ∙ ap (λ (q : ℕ). q / 2) (halved_lem era v)

-- The one output of the coinbase.
create_coinbase_tx-vout :
    (addr : List ℕ) (era offset : ℕ)
    → offset < subsidy_reduction_interval
    → (create_coinbase_tx addr (era * subsidy_reduction_interval + offset)).vout
      ≡ record { value = halved era base_subsidy; script_pub_key = pay_to_pub_key_hash_script addr }
        ∷ []
unfolding create_coinbase_tx calc_block_subsidy
create_coinbase_tx-vout addr era offset h =
    let eras : (era * subsidy_reduction_interval + offset) / subsidy_reduction_interval ≡ era =
      omega arith in
    ap (λ (v : ℕ). record { value = v; script_pub_key = pay_to_pub_key_hash_script addr } ∷ [])
      (ap (λ (k : ℕ). base_subsidy / 2 ^ k) eras ∙ halved_lem era base_subsidy)

create_coinbase_tx-total :
    (addr : List ℕ) (height : ℕ) → total_of (create_coinbase_tx addr height).vout ≤ base_subsidy
unfolding create_coinbase_tx
create_coinbase_tx-total addr height = omega (arith, calc_block_subsidy-le height)

-- The coinbase made for any address, at a height below 2^32 that is `offset` blocks into the era
-- `era` of the subsidy: it is a coinbase, its one output pays the base subsidy, halved once for each
-- era, to the hash of the address, its outputs are together worth at most the base subsidy, and it
-- passes the preliminary checks of a transaction.
pub validate_transaction_preliminary-create_coinbase_tx :
    (addr : List ℕ) (era offset : ℕ)
    → offset < subsidy_reduction_interval
    → era * subsidy_reduction_interval + offset < 2 ^ 32
    → (is_coin_base (create_coinbase_tx addr (era * subsidy_reduction_interval + offset)) ≡ true)
      × ((create_coinbase_tx addr (era * subsidy_reduction_interval + offset)).vout
          ≡ record {
            value = halved era base_subsidy;
            script_pub_key = pay_to_pub_key_hash_script addr;
          }
            ∷ [])
      × (total_of (create_coinbase_tx addr (era * subsidy_reduction_interval + offset)).vout
          ≤ base_subsidy)
      × (validate_transaction_preliminary
            (create_coinbase_tx addr (era * subsidy_reduction_interval + offset))
          ≡ ok tt)
validate_transaction_preliminary-create_coinbase_tx addr era offset h small =
    let height = era * subsidy_reduction_interval + offset in
    (
      create_coinbase_tx-is_coin_base addr height,
      create_coinbase_tx-vout addr era offset h,
      create_coinbase_tx-total addr height,
      (validate_transaction_preliminary-IsSane (create_coinbase_tx addr height)).1
          (coinbase_IsSane addr height small),
    )
