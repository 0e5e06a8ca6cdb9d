-- ===== src/Chain/Validate/Block/Tests.antt =====
-- The scripts of a block with one spending transaction, and one worker.
use boxd.Prelude.{
  ℕ, ◌≡◌, refl, subst, none, some, List, [], ◌∷◌, All, replicate, bytes_equal, arith,
}
use boxd.Prelude.Assoc.{find}
use boxd.Prelude.Result.{ok}
use boxd.Chain.UtxoSet.{UtxoSet, find_utxo}
use boxd.Chain.Validate.Block.{script_items, item_error}
use boxd.Chain.Validate.Block.Scripts.{IsUnlocked, script_items-returned}
use boxd.Chain.Validate.Inputs.{ScriptItem, in_script}
use boxd.Chain.Validate.Pool.{
  Pool, new_pool, give_item, report, take_nil, finish, Step, gives, checks, takes_nil, finishes,
  Reach, start, later,
}
use boxd.Script.Interp.{validate}
use boxd.Script.Parser.{parse_next_op}
use boxd.Script.Stack.{push}
use boxd.Script.Standard.{is_pay_to_script_hash}
use boxd.Script.Signature.{Crypto}
use boxd.Types.Block.{pay_to_pubk_tx, TypedTx}
use boxd.Types.Transaction.{OutPoint, Transaction, out_point_equal}
use boxd.Types.Utxo.{new_utxo_wrap, is_spent}

abbrev crypto : Crypto
crypto = record {
  Sig = List ℕ;
  Key = List ℕ;
  hash160 = λ key. replicate 20 7;
  sig_from_bytes = some;
  public_key_from_bytes = some;
  verify_signature = λ sig key hash. bytes_equal sig key;
  calc_tx_hash = λ tx. some [];
}

abbrev coin : OutPoint
coin = record { hash = replicate 32 1; index = 0 }

-- The script of the entry pushes 1.
abbrev coins : UtxoSet
coins = record {
  utxo_map = (coin, new_utxo_wrap 50 (0x51 ∷ []) 3) ∷ [];
  normal_tx_utxo_set = [];
  contract_utxos = [];
}

abbrev spending : Transaction
spending = record {
  version = 1;
  vin = record { prev_out_point = coin; script_sig = []; sequence = 0 } ∷ [];
  vout = [];
  payload = none;
  magic = 0;
  lock_time = 0;
}

abbrev spending_txs : List TypedTx
spending_txs = record { tx = spending; hash = []; kind = pay_to_pubk_tx } ∷ []

abbrev spending_items : List ScriptItem
spending_items =
    record { tx = spending; tx_in_idx = 0; script_sig = []; prev_script_pub_key = 0x51 ∷ [] } ∷ []

abbrev item_done : Pool
item_done = finish (take_nil (report (give_item new_pool 0) 0 0 none) 0)

spending_items_lem : script_items crypto coins spending_txs ≡ ok spending_items
unfolding script_items find_utxo find out_point_equal bytes_equal is_spent new_utxo_wrap
spending_items_lem = refl

spending-item_error : item_error crypto spending_items 0 ≡ none
unfolding item_error in_script validate parse_next_op push is_pay_to_script_hash
spending-item_error = refl

spending_run : Reach 1 1 (item_error crypto spending_items) new_pool item_done
unfolding new_pool
spending_run =
    later
      (later
        (later (later start (gives 0 (omega arith) refl (omega arith) (omega arith) refl)) (
          subst
            (λ found.
              Step 1 1 (item_error crypto spending_items) (give_item new_pool 0)
                (report (give_item new_pool 0) 0 0 found))
            spending-item_error (checks 0 0 (omega arith) refl)))
        (takes_nil 0 0 (omega arith) refl (omega arith) refl))
      (finishes refl (omega arith))

script_items-returned_example : All (IsUnlocked crypto coins) spending_txs
script_items-returned_example =
    script_items-returned crypto coins spending_txs spending_items 1 item_done spending_items_lem
      spending_run refl
