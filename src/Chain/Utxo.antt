-- ===== src/Chain/Utxo.antt =====
-- core/chain/utxoset.go: the stored form of an unspent output.
pub mod RoundTrip
mod Tests
use boxd.Prelude.{
  ℕ, ◌+◌, ◌/◌, ◌%◌, ◌^◌, Bool, Option, none, some, List, [], ◌++◌, length, take, drop, replicate,
  leb, if◌then◌else◌,
}
use boxd.Prelude.Words.{mul64}
use boxd.Prelude.Result.{Result, ok, err, panic, out_of_fuel, ◌>>=◌}
use boxd.Chain.Compress.Vlq.{Error, serialize_size_vlq, put_vlq, deserialize_vlq}
use boxd.Chain.Compress.TxOut.{compressed_tx_out_size, compressed_tx_out, decode_compressed_tx_out}
use boxd.Types.Utxo.{UtxoWrap, new_utxo_wrap, is_spent}

pub data UtxoError : Type 0 where
  spent_utxo_header : UtxoError
  end_after_header : UtxoError
  unable_to_decode : Error → UtxoError

-- An error of the output's own code, in the words of this one.
unfoldable pub decoding {ℓ} : {A : Type ℓ} → Result Error A → Result UtxoError A
decoding (ok a) = ok a
decoding (err e) = err (unable_to_decode e)
decoding panic = panic
decoding out_of_fuel = out_of_fuel

unfoldable pub utxo_wrap_header_code : UtxoWrap → Result UtxoError ℕ
utxo_wrap_header_code w = if is_spent w then err spent_utxo_header else ok (mul64 w.height 2)

-- A spent output has no stored form.
unfoldable pub serialize_utxo_wrap : UtxoWrap → Result UtxoError (Option (List ℕ))
unfolding decoding utxo_wrap_header_code
serialize_utxo_wrap w = if is_spent w then ok none else do
  header_code ← utxo_wrap_header_code w
  (target, offset) ← decoding (
      put_vlq
        (replicate (serialize_size_vlq header_code + compressed_tx_out_size w.value w.script) 0)
        header_code)
  (rest, size) ← decoding (compressed_tx_out (drop offset target) w.value w.script)
  ok (some (take offset target ++ rest))

unfoldable pub deserialize_utxo_wrap : List ℕ → Result UtxoError UtxoWrap
unfolding decoding new_utxo_wrap
deserialize_utxo_wrap serialized =
    let (code, offset) = deserialize_vlq serialized in
    if leb (length serialized) offset then err end_after_header else do
      (value, pk_script, size) ← decoding (decode_compressed_tx_out (drop offset serialized))
      ok (new_utxo_wrap value pk_script (code / 2 % 2 ^ 32))
