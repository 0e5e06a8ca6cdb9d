-- ===== src/Chain/UtxoSet/Tests.antt =====
-- A set with one coin, a transaction that spends it, and what applying and reverting it does.
use boxd.Prelude.Assoc.{store}
use boxd.Prelude.{subst, sym, ◌∙◌, ℕ, ◌≡◌, refl, inr, false, none, List, [], ◌∷◌, replicate, All}
use boxd.Prelude.{and_false, ◌==◌, bytes_equal}
use boxd.Prelude.Assoc.{find}
use boxd.Script.Standard.{is_op_return_script, is_contract_pubkey, is_pay_to_pub_key_hash}
use boxd.Script.Address.{extract_address}
use boxd.Script.Reader.{get_nth_op, address_from_hash}
use boxd.Script.Parser.{parse_next_op}
use boxd.Prelude.Result.{ok}
use boxd.Script.Builder.{pay_to_pub_key_hash_script}
use boxd.Chain.Error.{ChainError}
use boxd.Prelude.Ends.{ok-injective}
use boxd.Chain.UtxoSet.Apply.{apply_block}
use boxd.Chain.UtxoSet.Revert.{revert_block}
use boxd.Chain.UtxoSet.Coins.Blocks.{AreApplicable, revert_block-apply_block}
use boxd.Types.Block.{Block, pay_to_pubk_tx, TypedTx}
use boxd.Types.Transaction.{is_contract_type, OutPoint, out_point_equal}
use boxd.Types.Utxo.{is_spent, new_utxo_wrap}
use boxd.Chain.UtxoSet.{UtxoSet, View, find_utxo}
use boxd.Chain.UtxoSet.Apply.{apply_tx}
use boxd.Chain.UtxoSet.Revert.{revert_tx}
use boxd.Chain.UtxoSet.Coins.{unspent}
use boxd.Chain.UtxoSet.Coins.Plain.{IsPlain, pays}
use boxd.Chain.UtxoSet.Coins.Transfer.{transfer, IsFresh, apply_tx-transfer}
use boxd.Chain.UtxoSet.Coins.Undo.{IsSpendable, revert_tx-apply_tx}

abbrev no_contracts : View
no_contracts = record {
  is_contract_addr = λ addr. false;
  get_utxo = λ addr. none;
  make_contract_address = λ from nonce. replicate 20 7;
  load_block_info = λ hash. none;
}

abbrev some_script : List ℕ
some_script = pay_to_pub_key_hash_script (replicate 20 5)

abbrev first_coin : OutPoint
first_coin = record { hash = replicate 32 1; index = 0 }

abbrev one_coin : UtxoSet
one_coin = record {
  utxo_map = (first_coin, new_utxo_wrap 50 some_script 3) ∷ [];
  normal_tx_utxo_set = [];
  contract_utxos = [];
}

-- It pays 40 of the coin of 50.
abbrev payment : TypedTx
payment = record {
  tx = record {
    version = 1;
    vin = record { prev_out_point = first_coin; script_sig = []; sequence = 0 } ∷ [];
    vout = record { value = 40; script_pub_key = some_script } ∷ [];
    payload = none;
    magic = 0;
    lock_time = 0;
  };
  hash = replicate 32 2;
  kind = pay_to_pubk_tx;
}

payment-IsPlain : All (IsPlain no_contracts) payment.tx.vout
unfolding is_op_return_script pay_to_pub_key_hash_script is_contract_pubkey extract_address
    is_pay_to_pub_key_hash get_nth_op parse_next_op address_from_hash
payment-IsPlain = (pays (replicate 20 5) refl refl refl refl, tt)

payment-IsFresh : IsFresh no_contracts payment one_coin
unfolding find_utxo find out_point_equal bytes_equal
payment-IsFresh i = rw (and_false (0 == i)) refl

payment-IsSpendable : All (IsSpendable one_coin) payment.tx.vin
unfolding is_contract_type bytes_equal unspent find_utxo find out_point_equal is_spent new_utxo_wrap
payment-IsSpendable = (
  record {
    funds = record { value = 50; script = some_script; height = 3 };
    is_plain = refl;
    is_unspent = refl;
  },
  tt,
)

apply_tx-transfer_example :
    (next : UtxoSet) × (apply_tx no_contracts payment 9 one_coin ≡ ok next)
    × ((op : OutPoint) → unspent next op ≡ transfer payment 9 (unspent one_coin) op)
apply_tx-transfer_example =
    apply_tx-transfer no_contracts payment 9 one_coin payment-IsPlain payment-IsFresh

revert_tx-apply_tx_example :
    (applied : UtxoSet) × (reverted : UtxoSet) × (apply_tx no_contracts payment 9 one_coin
      ≡ ok applied)
    × (revert_tx no_contracts payment applied ≡ ok reverted)
    × ((op : OutPoint) → unspent reverted op ≡ unspent one_coin op)
revert_tx-apply_tx_example =
    revert_tx-apply_tx no_contracts payment 9 one_coin payment-IsPlain payment-IsFresh
      (inr payment-IsSpendable)

-- A second payment, of the coin that the first one makes.
abbrev onward : TypedTx
onward = record {
  tx = record {
    version = 1;
    vin =
        record {
          prev_out_point = record { hash = replicate 32 2; index = 0 };
          script_sig = [];
          sequence = 0;
        }
        ∷ [];
    vout = record { value = 30; script_pub_key = some_script } ∷ [];
    payload = none;
    magic = 0;
    lock_time = 0;
  };
  hash = replicate 32 3;
  kind = pay_to_pubk_tx;
}

-- What the first payment leaves.
abbrev after_payment : UtxoSet
after_payment = record {
  utxo_map =
      (first_coin, record { value = 50; script = some_script; height = 3; flags = 3 })
      ∷ (record { hash = replicate 32 2; index = 0 }, new_utxo_wrap 40 some_script 9)
      ∷ [];
  normal_tx_utxo_set = first_coin ∷ record { hash = replicate 32 2; index = 0 } ∷ [];
  contract_utxos = [];
}

apply_payment : apply_tx no_contracts payment 9 one_coin ≡ ok after_payment
unfolding apply_tx is_op_return_script pay_to_pub_key_hash_script is_contract_pubkey extract_address
    is_pay_to_pub_key_hash get_nth_op parse_next_op address_from_hash find out_point_equal
    bytes_equal store
apply_payment = refl

onward-IsPlain : All (IsPlain no_contracts) onward.tx.vout
unfolding is_op_return_script pay_to_pub_key_hash_script is_contract_pubkey extract_address
    is_pay_to_pub_key_hash get_nth_op parse_next_op address_from_hash
onward-IsPlain = (pays (replicate 20 5) refl refl refl refl, tt)

onward-IsFresh : IsFresh no_contracts onward after_payment
unfolding find_utxo find out_point_equal bytes_equal
onward-IsFresh i = rw (and_false (0 == i)) refl

onward-IsSpendable : All (IsSpendable after_payment) onward.tx.vin
unfolding is_contract_type bytes_equal unspent find_utxo find out_point_equal is_spent new_utxo_wrap
onward-IsSpendable = (
  record {
    funds = record { value = 40; script = some_script; height = 9 };
    is_plain = refl;
    is_unspent = refl;
  },
  tt,
)

abbrev two_payments : Block
two_payments = record {
  header = record { txs_root = []; time_stamp = 0; height = 9 };
  txs = payment ∷ onward ∷ [];
  internal_txs = [];
}

two_payments-AreApplicable : AreApplicable no_contracts 9 two_payments.txs one_coin
two_payments-AreApplicable = (
  payment-IsPlain,
  payment-IsFresh,
  inr payment-IsSpendable,
  λ next e.
      subst (AreApplicable no_contracts 9 (onward ∷ []))
        (ok-injective {E = ChainError} after_payment next (sym apply_payment ∙ e))
        (onward-IsPlain, onward-IsFresh, inr onward-IsSpendable, λ last q. tt),
)

revert_block-apply_block_example :
    (applied reverted : UtxoSet) × (apply_block no_contracts two_payments one_coin ≡ ok applied)
    × (revert_block no_contracts two_payments applied ≡ ok reverted)
    × ((op : OutPoint) → unspent reverted op ≡ unspent one_coin op)
revert_block-apply_block_example =
    revert_block-apply_block no_contracts two_payments one_coin refl two_payments-AreApplicable
