-- ===== src/Chain/Validate/Block.antt =====
-- core/chain/validate.go: the checks of a block that need no other block.
pub mod Valid
pub mod Scripts
pub mod Tests
use boxd.Prelude.{
  ℕ, ◌+◌, ◌-◌, Bool, true, false, not, ◌||◌, Option, none, some, List, [], ◌∷◌, ◌++◌, length, map,
  get_elem?, get_or, ltb, bytes_equal, ◌==◌, if◌then◌else◌,
}
use boxd.Prelude.Result.{Result, ok, err, panic, ◌>>=◌, ◌>>◌}
use boxd.Chain.Common.{is_coin_base, is_internal_contract}
use boxd.Chain.Error.{
  ChainError, no_transactions, first_tx_not_coinbase, multiple_coinbases, bad_merkle_root,
  unfinalized_tx, max_txs_size_exceeded, non_standard_transaction, double_spend_tx, other,
}
use boxd.Chain.UtxoSet.{UtxoSet}
use boxd.Chain.Validate.{is_tx_finalized, validate_transaction_preliminary}
use boxd.Chain.Validate.Inputs.{ScriptItem, check_tx_scripts, in_script}
use boxd.Script.Interp.{validate}
use boxd.Script.Signature.{Crypto}
use boxd.TxLogic.Kind.{is_standard_tx}
use boxd.Types.Block.{TypedTx, Block}
use boxd.Types.Transaction.{OutPoint, TxIn, out_point_equal, rough_size}
use boxd.Util.Merkle.{Hashing, build_merkle_root}

abbrev pub max_txs_rough_size : ℕ
max_txs_rough_size = 4_194_304

unfoldable pub some_coin_base : List TypedTx → Bool
some_coin_base [] = false
some_coin_base (t ∷ txs) = if is_coin_base t.tx then true else some_coin_base txs

unfoldable pub is_spent_before : OutPoint → List OutPoint → Bool
is_spent_before out_point [] = false
is_spent_before out_point (before ∷ existing) =
    out_point_equal before out_point || is_spent_before out_point existing

-- The outpoints of the block so far, with those of one more transaction.
unfoldable pub spend_once : List TxIn → List OutPoint → Result ChainError (List OutPoint)
unfolding is_spent_before
spend_once [] existing = ok existing
spend_once (tx_in ∷ vin) existing =
    if is_spent_before tx_in.prev_out_point existing
    then err double_spend_tx
    else spend_once vin (tx_in.prev_out_point ∷ existing)

unfoldable pub calc_txs_hash : Hashing → List TypedTx → Result ChainError (Option (List ℕ))
calc_txs_hash hashing txs = do
  merkles ← build_merkle_root hashing (map (λ (t : TypedTx). t.hash) txs)
  ok (get_or merkles (length merkles - 1) none)

unfoldable pub check_root : Block → Option (List ℕ) → Result ChainError (Unit {0})
check_root block none = panic
check_root block (some root) =
    if not (bytes_equal block.header.txs_root root) then err bad_merkle_root else ok tt

module _ (statedb : Option (List ℕ → Bool)) (hashing : Hashing) where
  -- The checks of one transaction in the loop, behind the one of the sizes.
  unfoldable pub check_tx : Block → TypedTx → List OutPoint → Result ChainError (List OutPoint)
  unfolding spend_once
  check_tx block t existing =
      if not (is_tx_finalized t.tx block.header.height block.header.time_stamp)
      then err unfinalized_tx
      else validate_transaction_preliminary t.tx >> do
        spent ← spend_once t.tx.vin existing
        (standard, tag) ← is_standard_tx statedb t.kind t.tx.vout
        if not standard then err non_standard_transaction else ok spent

  -- for i, tx := range transactions
  unfoldable pub check_txs :
      Block → List TypedTx → ℕ → List OutPoint → Result ChainError (List OutPoint)
  unfolding check_tx
  check_txs block [] txs_rough_size existing = ok existing
  check_txs block (t ∷ txs) txs_rough_size existing =
      let size = txs_rough_size + rough_size t.tx in
      if ltb max_txs_rough_size size
      then err max_txs_size_exceeded
      else do spent ← check_tx block t existing; check_txs block txs size spent

  -- The checks of a block with a first transaction and others. The search for duplicate hashes at
  -- the end is by the addresses of the hashes, which each transaction has its own of: it finds none,
  -- and is left out.
  unfoldable pub validate_txs : Block → TypedTx → List TypedTx → Result ChainError (Unit {0})
  unfolding check_txs some_coin_base calc_txs_hash check_root
  validate_txs block first others =
      if not (is_coin_base first.tx)
      then err first_tx_not_coinbase
      else if some_coin_base others
      then err multiple_coinbases
      else do
        spent ← check_txs block (first ∷ others) 0 []
        root ← calc_txs_hash hashing (first ∷ others)
        check_root block root

  unfoldable pub validate_block : Block → Result ChainError (Unit {0})
  unfolding validate_txs
  validate_block block = elim block.txs [
    | [] ↦ err no_transactions
    | first ∷ others ↦ validate_txs block first others
  ]

module _ (crypto : Crypto) where
  -- The items of the transactions behind the first one.
  unfoldable pub script_items : UtxoSet → List TypedTx → Result ChainError (List ScriptItem)
  unfolding check_tx_scripts is_internal_contract
  script_items u [] = ok []
  script_items u (t ∷ txs) = if is_internal_contract t.tx then script_items u txs else do
    items ← check_tx_scripts crypto u t.tx true
    rest ← script_items u txs
    ok (items ++ rest)

  -- What a worker finds of the item `i`: script.Validate of it, which ends with success or an error.
  unfoldable pub item_error : List ScriptItem → ℕ → Option ChainError
  unfolding in_script
  item_error items i = elim (get_elem? items i) [
    | none ↦ none
    | some it ↦
        elim (in_script (validate crypto it.script_sig it.prev_script_pub_key it.tx it.tx_in_idx)) [
          | ok _ ↦ none
          | err e ↦ some e
          | _ ↦ some other
        ]
  ]
