-- ===== src/Chain/Common.antt =====
-- core/chain/common.go: the transactions that create coins, and the subsidy of a block.
pub mod Subsidy
mod Tests
use boxd.Prelude.{
  ℕ, ◌+◌, ◌*◌, ◌/◌, ◌%◌, ◌^◌, Bool, false, ◌&&◌, Option, none, some, List, [], ◌∷◌, ◌++◌, length,
  bytes_equal, take, drop, ltb, ◌==◌, if◌then◌else◌,
}
use boxd.Prelude.Result.{Result, ok, err, ◌>>=◌}
use boxd.Script.Builder.{pay_to_pub_key_hash_script, standard_coinbase_signature_script}
use boxd.Types.Transaction.{OutPoint, TxIn, TxOut, Transaction, zero_hash, new_null_out_point}

-- 3e9 * core.DuPerBox
abbrev pub total_supply : ℕ
total_supply = 300_000_000_000_000_000

-- 3.17 * core.DuPerBox
abbrev pub base_subsidy : ℕ
base_subsidy = 317_000_000

-- core.SubsidyReductionInterval
abbrev pub subsidy_reduction_interval : ℕ
subsidy_reduction_interval = 15_552_000

unfoldable pub is_null_out_point : OutPoint → Bool
is_null_out_point out_point = out_point.index == 0xffff_ffff && bytes_equal out_point.hash zero_hash

-- The first input of a transaction with one input, against an index and the zero hash.
only_input : List TxIn → ℕ → Bool
only_input (tx_in ∷ []) index =
    tx_in.prev_out_point.index == index && bytes_equal tx_in.prev_out_point.hash zero_hash
only_input _ index = false

unfoldable pub is_internal_contract : Transaction → Bool
unfolding only_input
is_internal_contract tx = only_input tx.vin 0xffff_fffe

unfoldable pub is_coin_base : Transaction → Bool
unfolding only_input
is_coin_base tx = only_input tx.vin 0xffff_ffff

-- A shift by 64 or more leaves nothing, which the division says too.
unfoldable pub calc_block_subsidy : ℕ → ℕ
calc_block_subsidy height = base_subsidy / 2 ^ (height / subsidy_reduction_interval)

unfoldable pub create_coinbase_tx : List ℕ → ℕ → Transaction
unfolding calc_block_subsidy standard_coinbase_signature_script pay_to_pub_key_hash_script
    new_null_out_point
create_coinbase_tx addr block_height = record {
  version = 1;
  vin =
      record {
        prev_out_point = new_null_out_point;
        script_sig = standard_coinbase_signature_script block_height;
        sequence = 0xffff_ffff;
      }
      ∷ [];
  vout =
      record {
        value = calc_block_subsidy block_height;
        script_pub_key = pay_to_pub_key_hash_script addr;
      }
      ∷ [];
  payload = none;
  magic = 0;
  lock_time = 0;
}
