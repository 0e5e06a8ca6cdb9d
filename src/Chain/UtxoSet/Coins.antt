-- ===== src/Chain/UtxoSet/Coins.antt =====
-- core/chain/utxoset.go as a set of coins: what can be spent at each outpoint, which forgets the
-- flags, the order of the entries and the entries that are spent.
pub mod Spend
pub mod Plain
pub mod Undo
pub mod Blocks
pub mod Unspend
pub mod Transfer
use boxd.Prelude.{
  ℕ, suc, ◌≡◌, refl, sym, ap, ◌∙◌, inl, inr, Bool, true, false, not, ◌&&◌, ◌||◌, Option, none, some,
  List, [], ◌∷◌, ◌==◌, if◌then◌else◌, arith, Bool-cases, Option-cases,
}
use boxd.Prelude.Assoc.{find, store, find-store_same, find-store_other}
use boxd.Prelude.Bits.{is_odd_or}
use boxd.Types.OutPointKey.{out_point_key}
use boxd.Types.Block.{contract_tx}
use boxd.Types.Transaction.{OutPoint, TxIn, TxOut, out_point_equal}
use boxd.Types.Utxo.{UtxoWrap, is_spent, spend, un_spend}
use boxd.Script.Standard.{is_op_return_script}
use boxd.Chain.UtxoSet.{UtxoSet, find_utxo, put_utxo, mark_normal, spend_utxo, no_entry}

pub record Coin : Type 0 where
  pub value : ℕ
  pub script : List ℕ
  pub height : ℕ

unfoldable pub coin : UtxoWrap → Coin
coin w = record { value = w.value; script = w.script; height = w.height }

-- The coin of an entry, spent or not.
unfoldable pub coin_of : Option UtxoWrap → Option Coin
unfolding coin
coin_of none = none
coin_of (some w) = some (coin w)

unfoldable pub unspent_of : Option UtxoWrap → Option Coin
unfolding coin
unspent_of none = none
unspent_of (some w) = if is_spent w then none else some (coin w)

-- The coins that can be spent.
unfoldable pub unspent : UtxoSet → OutPoint → Option Coin
unfolding unspent_of
unspent u op = unspent_of (find_utxo u op)

unfoldable pub known : UtxoSet → OutPoint → Option Coin
unfolding coin_of
known u op = coin_of (find_utxo u op)

-- Some input spends the outpoint.
unfoldable pub spends : List TxIn → OutPoint → Bool
spends [] op = false
spends (tx_in ∷ vin) op = out_point_equal tx_in.prev_out_point op || spends vin op

-- The outputs but for the unspendable ones, from the index `idx` on.
unfoldable pub created : List ℕ → ℕ → List TxOut → ℕ → OutPoint → Option Coin
created hash idx [] height op = none
created hash idx (vout ∷ vouts) height op =
    if not (is_op_return_script vout.script_pub_key)
      && out_point_equal (record { hash = hash; index = idx }) op
    then some (record { value = vout.value; script = vout.script_pub_key; height = height })
    else created hash (suc idx) vouts height op

pub find_utxo-put_utxo_same :
    (u : UtxoSet) (k op : OutPoint) (w : UtxoWrap)
    → out_point_equal k op ≡ true
    → find_utxo (put_utxo u k w) op ≡ some w
unfolding find_utxo put_utxo
find_utxo-put_utxo_same u k op w e = find-store_same out_point_key k op w u.utxo_map e

pub find_utxo-put_utxo_other :
    (u : UtxoSet) (k op : OutPoint) (w : UtxoWrap)
    → out_point_equal k op ≡ false
    → find_utxo (put_utxo u k w) op ≡ find_utxo u op
unfolding find_utxo put_utxo
find_utxo-put_utxo_other u k op w e = find-store_other out_point_key k op w u.utxo_map e

pub find_utxo-mark_normal :
    (kind : ℕ) (k op : OutPoint) (u : UtxoSet)
    → find_utxo (mark_normal kind k u) op ≡ find_utxo u op
unfolding find_utxo mark_normal
find_utxo-mark_normal kind k op u = elim (Bool-cases (kind == contract_tx)) [
  | inl e ↦ rw e refl
  | inr e ↦ rw e refl
]

pub is_spent-spend : (w : UtxoWrap) → is_spent (spend w) ≡ true
unfolding is_spent spend
is_spent-spend w = elim (Bool-cases (is_spent w)) [
  | inl e ↦ rw e e
  | inr e ↦ rw e (is_odd_or w.flags)
]

pub is_spent-un_spend : (w : UtxoWrap) → is_spent (un_spend w) ≡ false
unfolding is_spent un_spend
is_spent-un_spend w = refl

pub coin-spend : (w : UtxoWrap) → coin (spend w) ≡ coin w
unfolding coin spend
coin-spend w = elim (Bool-cases (is_spent w)) [ inl e ↦ rw e refl | inr e ↦ rw e refl ]
