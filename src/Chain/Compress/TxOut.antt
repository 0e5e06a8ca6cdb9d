-- ===== src/Chain/Compress/TxOut.antt =====
-- core/chain/compress.go: compressed transaction outputs, a value and a script.
pub mod RoundTrip
mod Tests
use boxd.Prelude.{ℕ, ◌+◌, ◌^◌, List, ◌++◌, length, take, drop, slice, ltb, leb, if◌then◌else◌}
use boxd.Prelude.Words.{add64, int_lt}
use boxd.Prelude.Result.{Result, ok, err, panic, ◌>>=◌}
use boxd.Chain.Compress.Vlq.{
  Error, end_after_amount, end_after_script_size, serialize_size_vlq, put_vlq, deserialize_vlq,
}
use boxd.Chain.Compress.Amount.{compress_tx_out_value, decompress_tx_out_value}
use boxd.Chain.Compress.PkScript.{
  compressed_script_size, decode_compressed_script_size, compressed_script, decompress_script,
}

unfoldable pub compressed_tx_out_size : ℕ → List ℕ → ℕ
compressed_tx_out_size value pk_script =
    serialize_size_vlq (compress_tx_out_value value) + compressed_script_size pk_script

-- The script goes to `target[offset:]`, a slice of the same array.
unfoldable pub compressed_tx_out : List ℕ → ℕ → List ℕ → Result Error (List ℕ × ℕ)
compressed_tx_out target value pk_script = do
  (target', offset) ← put_vlq target (compress_tx_out_value value)
  (rest, size) ← compressed_script (drop offset target') pk_script
  ok (take offset target' ++ rest, offset + size)

-- The script size is an int given by its bit pattern; cutting a slice of negative size panics.
decode_script : List ℕ → ℕ → ℕ → ℕ → Result Error (ℕ × List ℕ × ℕ)
decode_script serialized compressed_amount bytes_read script_size =
    if int_lt (length (drop bytes_read serialized)) script_size
    then err end_after_script_size
    else if leb (2 ^ 63) script_size
    then panic
    else do
      script ← decompress_script (slice serialized bytes_read (bytes_read + script_size))
      ok (decompress_tx_out_value compressed_amount, script, bytes_read + script_size)

unfoldable pub decode_compressed_tx_out : List ℕ → Result Error (ℕ × List ℕ × ℕ)
unfolding decode_script
decode_compressed_tx_out serialized =
    let (compressed_amount, bytes_read) = deserialize_vlq serialized in
    if leb (length serialized) bytes_read
    then err end_after_amount
    else decode_script serialized compressed_amount bytes_read
        (decode_compressed_script_size (drop bytes_read serialized))
