-- ===== src/Types/Transaction.antt =====
-- core/types/transaction.go: the data of a transaction. The cached hash and the type tag, which the
-- scripts do not read, are left out. A hash is its bytes, and an int64 is its bit pattern.
use boxd.Prelude.{
  ℕ, ◌+◌, Bool, true, false, not, ◌&&◌, ◌||◌, Option, none, some, List, [], ◌∷◌, ◌++◌, length, take,
  drop, replicate, bytes_equal, ◌==◌, if◌then◌else◌,
}
use boxd.Prelude.Words.{add64}

pub record OutPoint : Type 0 where
  pub hash : List ℕ
  pub index : ℕ

pub record TxIn : Type 0 where
  pub prev_out_point : OutPoint
  pub script_sig : List ℕ
  pub sequence : ℕ

pub record TxOut : Type 0 where
  pub value : ℕ
  pub script_pub_key : List ℕ

pub record Payload : Type 0 where
  pub kind : ℕ
  pub content : List ℕ

pub record Transaction : Type 0 where
  pub version : ℕ
  pub vin : List TxIn
  pub vout : List TxOut
  pub payload : Option Payload
  pub magic : ℕ
  pub lock_time : ℕ

unfoldable pub new_tx : ℕ → ℕ → ℕ → Transaction
new_tx ver magic lock_time = record {
  version = ver;
  vin = [];
  vout = [];
  payload = none;
  magic = magic;
  lock_time = lock_time;
}

unfoldable pub new_tx_in : OutPoint → List ℕ → ℕ → TxIn
new_tx_in prev_out_point script_sig seq = record {
  prev_out_point = prev_out_point;
  script_sig = script_sig;
  sequence = seq;
}

unfoldable pub append_vin : Transaction → TxIn → Transaction
append_vin tx in_put = record tx { vin = tx.vin ++ (in_put ∷ []) }

unfoldable pub append_vout : Transaction → List TxOut → Transaction
append_vout tx out = record tx { vout = tx.vout ++ out }

-- crypto.HashSize zero bytes.
abbrev pub zero_hash : List ℕ
zero_hash = replicate 32 0

unfoldable pub new_null_out_point : OutPoint
new_null_out_point = record { hash = zero_hash; index = 0xffff_ffff }

-- Two outpoints as keys of a map.
unfoldable pub out_point_equal : OutPoint → OutPoint → Bool
out_point_equal a b = a.index == b.index && bytes_equal a.hash b.hash

-- An outpoint of a contract: index 0, twelve zero bytes and an address that is not zero.
unfoldable pub is_contract_type : OutPoint → Bool
is_contract_type op =
    if not (op.index == 0)
    then false
    else if not (bytes_equal (take 12 op.hash) (replicate 12 0))
        || bytes_equal (drop 12 op.hash) (replicate 20 0)
    then false
    else true

vin_size : List TxIn → ℕ
vin_size [] = 0
vin_size (tx_in ∷ vin) = 40 + length tx_in.script_sig + vin_size vin

vout_size : List TxOut → ℕ
vout_size [] = 0
vout_size (out ∷ vout) = 8 + length out.script_pub_key + vout_size vout

-- A rough size in memory.
unfoldable pub rough_size : Transaction → ℕ
unfolding vin_size vout_size
rough_size tx =
    16
    + vin_size tx.vin
    + vout_size tx.vout
    + (elim tx.payload [ none ↦ 0 | some p ↦ 4 + length p.content ])

sum_values : List TxOut → ℕ → ℕ
sum_values [] total = total
sum_values (out ∷ vout) total = sum_values vout (add64 total out.value)

-- The sum of the outputs, as a uint64.
unfoldable pub output_amount : Transaction → ℕ
unfolding sum_values
output_amount tx = sum_values tx.vout 0
