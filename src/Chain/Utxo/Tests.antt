-- ===== src/Chain/Utxo/Tests.antt =====
-- The theorem on stored outputs at a concrete one.
use boxd.Prelude.{ℕ, ◌≡◌, refl, none, some, List, [], ◌∷◌, arith}
use boxd.Prelude.Result.{ok}
use boxd.Chain.Compress.Amount.{compress_tx_out_value}
use boxd.Chain.Compress.PkScript.{is_pub_key_hash, is_script_hash, compressed_script_size}
use boxd.Chain.Compress.PkScript.RoundTrip.{IsCanonical}
use boxd.Chain.Compress.TxOut.{compressed_tx_out_size}
use boxd.Chain.Compress.Vlq.{serialize_size_vlq}
use boxd.Chain.Utxo.{serialize_utxo_wrap, deserialize_utxo_wrap}
use boxd.Chain.Utxo.RoundTrip.{deserialize_utxo_wrap-serialize_utxo_wrap}
use boxd.Types.Utxo.{UtxoWrap, new_utxo_wrap, is_spent, spend}

abbrev some_script : List ℕ
some_script = 0x51 ∷ 0x51 ∷ []

some_script-IsCanonical : IsCanonical some_script
unfolding is_pub_key_hash is_script_hash
some_script-IsCanonical = record {
  pub_key_hash = λ h. ground arith;
  script_hash = λ h. ground arith;
}

abbrev some_utxo : UtxoWrap
some_utxo = record { value = 1_000; script = some_script; height = 77; flags = 2 }

-- A spent output is stored as nothing.
spent_utxo : serialize_utxo_wrap (spend some_utxo) ≡ ok none
unfolding serialize_utxo_wrap spend is_spent
spent_utxo = refl

deserialize_utxo_wrap-serialize_utxo_wrap_example :
    (t : List ℕ) × (serialize_utxo_wrap some_utxo ≡ ok (some t))
    × (deserialize_utxo_wrap t ≡ ok (new_utxo_wrap 1_000 some_script 77))
deserialize_utxo_wrap-serialize_utxo_wrap_example =
    deserialize_utxo_wrap-serialize_utxo_wrap some_utxo (unfold is_spent in refl) (omega arith)
      (omega arith) some_script-IsCanonical (omega arith)
      (unfold compressed_tx_out_size compressed_script_size is_pub_key_hash is_script_hash
          serialize_size_vlq compress_tx_out_value in
        omega arith)
