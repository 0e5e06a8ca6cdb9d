-- ===== src/Chain/UtxoSet.antt =====
-- core/chain/utxoset.go: the set of unspent outputs, and what a transaction and a block do to it.
-- The map's entries are pointers; a function that changes an entry stores it again. What the set
-- reads of the state of the contracts and of the stored blocks is `View`.
pub mod Coins
mod Tests
pub mod Apply
pub mod Revert
use boxd.Prelude.{
  ℕ, suc, ◌+◌, ◌≡◌, refl, Bool, true, false, not, ◌&&◌, ◌||◌, Option, none, some, List, [], ◌∷◌,
  ◌++◌, reverse, length, get_elem?, replicate, bytes_equal, ◌==◌, if◌then◌else◌,
}
use boxd.Prelude.Assoc.{KeyEq, find, store}
use boxd.Prelude.Result.{Result, ok, err, panic, out_of_fuel, ◌>>=◌}
use boxd.Prelude.Words.{add64}
use boxd.Chain.Common.{is_coin_base, is_internal_contract}
use boxd.Chain.Error.{
  ChainError, tx_out_index_oob, add_existing_utxo, utxo_not_found, script_error, other,
}
use boxd.Chain.Utxo.{deserialize_utxo_wrap}
use boxd.Types.OutPointKey.{out_point_key}
use boxd.Script.Address.{Address, pub_key_hash, split, contract, extract_address}
use boxd.Script.Contract.{parse_contract_info}
use boxd.Script.Error.{Error}
use boxd.Script.Standard.{is_op_return_script, is_contract_pubkey, is_pay_to_pub_key_hash}
use boxd.Types.Block.{contract_tx, TypedTx, Block}
use boxd.Types.Transaction.{OutPoint, TxIn, TxOut, Transaction, is_contract_type}
use boxd.Types.Utxo.{UtxoWrap, new_utxo_wrap, is_spent, spend, un_spend, set_value, add_value}

abbrev pub UtxoMap : Type 0
UtxoMap = List (OutPoint × UtxoWrap)

-- The two sets are lists of their members, the last added first.
pub record UtxoSet : Type 0 where
  pub utxo_map : UtxoMap
  pub normal_tx_utxo_set : List OutPoint
  pub contract_utxos : List OutPoint

-- The methods of the state database, the address of a new contract (a hash of the sender and its
-- nonce), and LoadBlockInfoByTxHash: the height of a transaction's block and the transaction.
pub record View : Type 0 where
  pub is_contract_addr : List ℕ → Bool
  pub get_utxo : List ℕ → Option (List ℕ)
  pub make_contract_address : List ℕ → ℕ → List ℕ
  pub load_block_info : List ℕ → Option (ℕ × Transaction)

unfoldable pub new_utxo_set : UtxoSet
new_utxo_set = record { utxo_map = []; normal_tx_utxo_set = []; contract_utxos = [] }

unfoldable pub normalize_address_hash : List ℕ → List ℕ
normalize_address_hash addr_hash =
    if bytes_equal addr_hash (replicate 20 0) then replicate 32 0 else replicate 12 0 ++ addr_hash

-- The unspent utxos of a map.
unfoldable pub get_utxos : UtxoMap → UtxoMap
get_utxos [] = []
get_utxos ((out_point, w) ∷ m) = if is_spent w then get_utxos m else (out_point, w) ∷ get_utxos m

unfoldable pub import_utxo_map : UtxoMap → UtxoMap → UtxoMap
import_utxo_map [] m = m
import_utxo_map ((out_point, w) ∷ ws) m = import_utxo_map ws (store out_point_key out_point w m)

unfoldable pub find_utxo : UtxoSet → OutPoint → Option UtxoWrap
find_utxo u out_point = find out_point_key u.utxo_map out_point

unfoldable pub put_utxo : UtxoSet → OutPoint → UtxoWrap → UtxoSet
put_utxo u out_point w = record u { utxo_map = store out_point_key out_point w u.utxo_map }

-- Every transaction but one of a contract is remembered with its outpoints. `kind` is what
-- txlogic.GetTxType returns: the type that the transaction keeps once it is set.
unfoldable pub mark_normal : ℕ → OutPoint → UtxoSet → UtxoSet
mark_normal kind out_point u =
    if kind == contract_tx
    then u
    else record u { normal_tx_utxo_set = out_point ∷ u.normal_tx_utxo_set }

unfoldable pub add_utxo : TypedTx → ℕ → ℕ → UtxoSet → Result ChainError UtxoSet
unfolding find_utxo put_utxo new_utxo_wrap
add_utxo t tx_out_idx block_height u = elim (get_elem? t.tx.vout tx_out_idx) [
  | none ↦ err tx_out_index_oob
  | some vout ↦
      if is_op_return_script vout.script_pub_key || is_contract_pubkey vout.script_pub_key
      then err other
      else let out_point : OutPoint = record { hash = t.hash; index = tx_out_idx } in
        elim (find_utxo u out_point) [
          | some w ↦ err add_existing_utxo
          | none ↦
              ok (put_utxo u out_point (new_utxo_wrap vout.value vout.script_pub_key block_height))
        ]
]

abbrev pub no_entry : UtxoWrap
no_entry = record { value = 0; script = []; height = 0; flags = 0 }

-- An entry that is missing is added as spent.
unfoldable pub spend_utxo : OutPoint → UtxoSet → UtxoSet
unfolding find_utxo put_utxo spend
spend_utxo out_point u = elim (find_utxo u out_point) [
  | none ↦ put_utxo u out_point (spend no_entry)
  | some w ↦ put_utxo u out_point (spend w)
]

input_amount : UtxoSet → List TxIn → ℕ → ℕ
unfolding find_utxo
input_amount u [] total = total
input_amount u (tx_in ∷ vin) total = elim (find_utxo u tx_in.prev_out_point) [
  | none ↦ 0
  | some w ↦ if is_spent w then 0 else input_amount u vin (add64 total w.value)
]

unfoldable pub tx_input_amount : UtxoSet → Transaction → ℕ
unfolding input_amount
tx_input_amount u tx = input_amount u tx.vin 0

-- The contract of a script that makes one has no address.
unfoldable pub hash160 : Address → Option (List ℕ)
hash160 (pub_key_hash h) = some h
hash160 (split h) = some h
hash160 (contract h) = h

module _ (view : View) where
  open view use {get_utxo}

  -- An entry that cannot be read is nil.
  unfoldable pub get_contract_utxo_from_state_db : List ℕ → Result ChainError (Option UtxoWrap)
  get_contract_utxo_from_state_db addr = elim (get_utxo addr) [
    | none ↦ ok none
    | some bytes ↦ elim (deserialize_utxo_wrap bytes) [
      | ok w ↦ ok (some w)
      | err e ↦ ok none
      | panic ↦ panic
      | out_of_fuel ↦ out_of_fuel
    ]
  ]
