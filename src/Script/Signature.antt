-- ===== src/Script/Signature.antt =====
-- script/script.go: what a signature signs. The signature scheme, the hashes and the encoding of a
-- transaction are parameters: they stand on code outside the repository.
use boxd.Prelude.{
  ℕ, ◌+◌, Bool, false, Option, none, some, List, [], ◌∷◌, length, leb, ◌==◌, if◌then◌else◌,
}
use boxd.Script.Builder.{Script}
use boxd.Types.Transaction.{TxIn, Transaction, new_tx, new_tx_in, append_vin, append_vout}

-- crypto.Hash160, crypto.SigFromBytes, crypto.PublicKeyFromBytes, (*Signature).VerifySignature and
-- (*Transaction).CalcTxHash. `none` stands for an error.
pub record Crypto : Type 1 where
  pub Sig : Type 0
  pub Key : Type 0
  pub hash160 : List ℕ → List ℕ
  pub sig_from_bytes : List ℕ → Option Sig
  pub public_key_from_bytes : List ℕ → Option Key
  pub verify_signature : Sig → Key → List ℕ → Bool
  pub calc_tx_hash : Transaction → Option (List ℕ)

-- The loop over the inputs: only the one that is signed keeps a script.
pub append_vins : Script → ℕ → ℕ → List TxIn → Transaction → Transaction
unfolding new_tx_in append_vin
append_vins script_pub_key tx_in_idx i [] tx = tx
append_vins script_pub_key tx_in_idx i (tx_in ∷ rest) tx =
    append_vins script_pub_key tx_in_idx (i + 1) rest (
      append_vin tx (
        new_tx_in tx_in.prev_out_point (if i == tx_in_idx then script_pub_key else [])
          tx_in.sequence))

-- The transaction whose hash is signed.
unfoldable pub tx_for_sig : Script → Transaction → ℕ → Transaction
unfolding append_vins append_vout new_tx
tx_for_sig script_pub_key original_tx tx_in_idx =
    let tx =
      append_vout (new_tx original_tx.version original_tx.magic original_tx.lock_time)
        original_tx.vout in
    append_vins script_pub_key tx_in_idx 0 original_tx.vin
      (record tx { payload = original_tx.payload })

module _ (crypto : Crypto) where
  open crypto use {
    Sig, Key, hash160, sig_from_bytes, public_key_from_bytes, verify_signature, calc_tx_hash,
  }

  unfoldable pub calc_tx_hash_for_sig : Script → Transaction → ℕ → Option (List ℕ)
  unfolding tx_for_sig
  calc_tx_hash_for_sig script_pub_key original_tx tx_in_idx =
      if leb (length original_tx.vin) tx_in_idx
      then none
      else calc_tx_hash (tx_for_sig script_pub_key original_tx tx_in_idx)

  -- Any error is logged and counts as a signature that does not verify.
  unfoldable pub verify_sig : List ℕ → List ℕ → Script → Transaction → ℕ → Bool
  unfolding calc_tx_hash_for_sig
  verify_sig sig_str public_key_str script_pub_key tx tx_in_idx = elim (sig_from_bytes sig_str) [
    | none ↦ false
    | some sig ↦ elim (public_key_from_bytes public_key_str) [
      | none ↦ false
      | some public_key ↦ elim (calc_tx_hash_for_sig script_pub_key tx tx_in_idx) [
        | none ↦ false
        | some sig_hash ↦ verify_signature sig public_key sig_hash
      ]
    ]
  ]
