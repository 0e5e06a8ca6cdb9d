-- ===== src/Chain/Compress/TxOut/Tests.antt =====
-- Runs of the output functions of core/chain/compress.go, and the theorem at a concrete output.
use boxd.Prelude.{ℕ, ◌≡◌, refl, List, [], ◌∷◌, replicate, drop, arith}
use boxd.Prelude.Result.{ok, err, panic}
use boxd.Chain.Compress.Vlq.{
  serialize_size_vlq, end_after_amount, end_after_script_size, deserialize_vlq,
}
use boxd.Chain.Compress.Amount.{compress_tx_out_value}
use boxd.Chain.Compress.PkScript.{
  is_pub_key_hash, is_script_hash, compressed_script_size, decode_compressed_script_size,
}
use boxd.Chain.Compress.PkScript.RoundTrip.{IsCanonical}
use boxd.Chain.Compress.TxOut.{compressed_tx_out_size, compressed_tx_out, decode_compressed_tx_out}
use boxd.Chain.Compress.TxOut.RoundTrip.{decode_compressed_tx_out-compressed_tx_out}

no_script : decode_compressed_tx_out (9 ∷ []) ≡ err end_after_amount
unfolding decode_compressed_tx_out deserialize_vlq
no_script = refl

short_script : decode_compressed_tx_out (9 ∷ 8 ∷ 1 ∷ []) ≡ err end_after_script_size
unfolding decode_compressed_tx_out decode_compressed_script_size deserialize_vlq
short_script = refl

-- The size byte 3 passes the test on the size as a negative int, and the slice panics.
negative_size : decode_compressed_tx_out (9 ∷ 3 ∷ 1 ∷ []) ≡ panic
unfolding decode_compressed_tx_out decode_compressed_script_size deserialize_vlq
negative_size = refl

abbrev some_script : List ℕ
some_script = 0x51 ∷ 0x51 ∷ []

some_script-IsCanonical : IsCanonical some_script
unfolding is_pub_key_hash is_script_hash
some_script-IsCanonical = record {
  pub_key_hash = λ h. ground arith;
  script_hash = λ h. ground arith;
}

decode_compressed_tx_out-compressed_tx_out_example :
    (t : List ℕ) × (compressed_tx_out (replicate 8 0) 1_000 some_script
      ≡ ok (t, compressed_tx_out_size 1_000 some_script))
    × (decode_compressed_tx_out t
        ≡ ok (1_000, some_script, compressed_tx_out_size 1_000 some_script))
    × (drop (compressed_tx_out_size 1_000 some_script) t
        ≡ drop (compressed_tx_out_size 1_000 some_script) (replicate 8 0))
decode_compressed_tx_out-compressed_tx_out_example =
    decode_compressed_tx_out-compressed_tx_out 1_000 some_script (replicate 8 0) (omega arith)
      some_script-IsCanonical (omega arith) (omega arith)
      (unfold compressed_tx_out_size compressed_script_size is_pub_key_hash is_script_hash
          serialize_size_vlq compress_tx_out_value in
        omega arith)
