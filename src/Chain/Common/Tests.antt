-- ===== src/Chain/Common/Tests.antt =====
-- The coinbase of the block at height 7, and of one in the second era of the subsidy.
use boxd.Prelude.{◌+◌, ◌*◌, ◌≤◌, ◌≡◌, refl, true, [], ◌∷◌, replicate, arith}
use boxd.Prelude.Result.{ok}
use boxd.Chain.Common.{
  base_subsidy, subsidy_reduction_interval, calc_block_subsidy, create_coinbase_tx, is_coin_base,
}
use boxd.Chain.Common.Subsidy.{halved, validate_transaction_preliminary-create_coinbase_tx}
use boxd.Chain.Validate.{validate_transaction_preliminary}
use boxd.Chain.Validate.Sane.{total_of}
use boxd.Script.Builder.{pay_to_pub_key_hash_script}

first_era : calc_block_subsidy 7 ≡ 317_000_000
unfolding calc_block_subsidy
first_era = refl

validate_transaction_preliminary-create_coinbase_tx_example :
    (is_coin_base (create_coinbase_tx (replicate 20 9) (1 * subsidy_reduction_interval + 7)) ≡ true)
    × ((create_coinbase_tx (replicate 20 9) (1 * subsidy_reduction_interval + 7)).vout
        ≡ record {
          value = halved 1 base_subsidy;
          script_pub_key = pay_to_pub_key_hash_script (replicate 20 9);
        }
          ∷ [])
    × (total_of (create_coinbase_tx (replicate 20 9) (1 * subsidy_reduction_interval + 7)).vout
        ≤ base_subsidy)
    × (validate_transaction_preliminary
          (create_coinbase_tx (replicate 20 9) (1 * subsidy_reduction_interval + 7))
        ≡ ok tt)
validate_transaction_preliminary-create_coinbase_tx_example =
    validate_transaction_preliminary-create_coinbase_tx (replicate 20 9) 1 7 (omega arith)
      (omega arith)
