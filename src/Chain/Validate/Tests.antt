-- ===== src/Chain/Validate/Tests.antt =====
-- A payment that is checked, and a block with a coinbase and the payment.
use boxd.Util.Merkle.{build_merkle_root}
use boxd.TxLogic.Kind.{is_standard_tx}
use boxd.Chain.Validate.{is_tx_finalized}
use boxd.Script.Parser.{parse}
use boxd.Script.Standard.{is_pay_to_pub_key_hash}
use boxd.Script.Token.{is_token_issue, is_token_transfer}
use boxd.Types.Utxo.{is_spent}
use boxd.Prelude.{bytes_equal}
use boxd.Types.Transaction.{out_point_equal, rough_size}
use boxd.Prelude.Assoc.{find}
use boxd.Chain.UtxoSet.{find_utxo}
use boxd.Chain.Common.{is_internal_contract, is_null_out_point}
use boxd.Prelude.{ℕ, ◌+◌, ◌≡◌, ◌↔◌, refl, Bool, false, none, some, List, [], ◌∷◌, replicate, arith}
use boxd.Prelude.Result.{ok}
use boxd.Chain.Common.{is_coin_base, create_coinbase_tx}
use boxd.Chain.UtxoSet.{UtxoSet}
use boxd.Chain.Validate.{validate_transaction_preliminary}
use boxd.Chain.Validate.Sane.{IsSane, total_of, validate_transaction_preliminary-IsSane}
use boxd.Chain.Validate.Inputs.{validate_tx_inputs}
use boxd.Chain.Validate.Inputs.Sums.{input_total}
use boxd.Chain.Validate.Inputs.Fee.{validate_tx_inputs-balanced}
use boxd.Chain.Validate.Block.{validate_block}
use boxd.Chain.Validate.Block.Valid.{IsValid, validate_block-IsValid}
use boxd.Script.Builder.{pay_to_pub_key_hash_script}
use boxd.Types.Block.{pay_to_pubk_tx, Block}
use boxd.Types.Transaction.{OutPoint, Transaction}
use boxd.Types.Utxo.{new_utxo_wrap}
use boxd.Util.Merkle.{Hashing}

abbrev first_coin : OutPoint
first_coin = record { hash = replicate 32 1; index = 0 }

abbrev one_coin : UtxoSet
one_coin = record {
  utxo_map = (first_coin, new_utxo_wrap 50 (pay_to_pub_key_hash_script (replicate 20 5)) 3) ∷ [];
  normal_tx_utxo_set = [];
  contract_utxos = [];
}

abbrev payment : Transaction
payment = record {
  version = 1;
  vin = record { prev_out_point = first_coin; script_sig = []; sequence = 0 } ∷ [];
  vout = record { value = 40; script_pub_key = pay_to_pub_key_hash_script (replicate 20 6) } ∷ [];
  payload = none;
  magic = 0;
  lock_time = 0;
}

validate_transaction_preliminary-IsSane_example :
    (validate_transaction_preliminary payment ≡ ok tt) ↔ IsSane payment
validate_transaction_preliminary-IsSane_example = validate_transaction_preliminary-IsSane payment

-- The tokens' names and decimals play no part here.
abbrev no_name : List ℕ → Bool
no_name name = false

abbrev one_power : ℕ → ℕ
one_power decimals = 1

validate_tx_inputs-balanced_example :
    input_total one_coin payment.vin ≡ some (10 + total_of payment.vout)
unfolding is_coin_base is_internal_contract validate_tx_inputs find_utxo find out_point_equal
    bytes_equal is_spent new_utxo_wrap is_token_issue pay_to_pub_key_hash_script
    is_pay_to_pub_key_hash parse is_token_transfer
validate_tx_inputs-balanced_example =
    validate_tx_inputs-balanced no_name one_power one_coin payment 10 refl (omega arith) refl

abbrev coinbase : Transaction
coinbase = create_coinbase_tx (replicate 20 9) 7

-- A hash that is its input's first 32 bytes, and the logarithm at 2 and 3.
abbrev stand_in : Hashing
stand_in = record { log2 = λ n. 1; double_hash = λ bytes. replicate 32 8 }

abbrev small_block : Block
small_block = record {
  header = record { txs_root = replicate 32 8; time_stamp = 100; height = 7 };
  txs =
      record { tx = coinbase; hash = replicate 32 3; kind = pay_to_pubk_tx }
      ∷ record { tx = payment; hash = replicate 32 4; kind = pay_to_pubk_tx }
      ∷ [];
  internal_txs = [];
}

validate_block-IsValid_example : IsValid none stand_in small_block
unfolding validate_block is_coin_base create_coinbase_tx bytes_equal rough_size is_tx_finalized
    validate_transaction_preliminary is_standard_tx is_internal_contract is_null_out_point
    out_point_equal build_merkle_root
validate_block-IsValid_example = validate_block-IsValid none stand_in small_block refl
