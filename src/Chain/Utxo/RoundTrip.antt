-- ===== src/Chain/Utxo/RoundTrip.antt =====
-- What is stored of an unspent output reads back.
use boxd.Prelude.{
  ℕ, ◌+◌, ◌*◌, ◌/◌, ◌%◌, ◌^◌, ◌<◌, ◌≡◌, refl, ap, sym, ◌∙◌, false, some, List, [], ◌∷◌, ◌++◌,
  length, length-append, length-drop, length-replicate, take-append, drop, drop-append, replicate,
  lt→leb, arith,
}
use boxd.Prelude.Words.{IsU64, mul64}
use boxd.Prelude.Result.{ok}
use boxd.Chain.Compress.Vlq.{serialize_size_vlq, deserialize_vlq}
use boxd.Chain.Compress.Vlq.RoundTrip.{vlq, length-vlq, deserialize_vlq-vlq, put_vlq-vlq}
use boxd.Chain.Compress.PkScript.RoundTrip.{IsCanonical}
use boxd.Chain.Compress.TxOut.{compressed_tx_out_size, decode_compressed_tx_out}
use boxd.Chain.Compress.TxOut.RoundTrip.{decode_compressed_tx_out-compressed_tx_out}
use boxd.Chain.Utxo.{decoding, utxo_wrap_header_code, serialize_utxo_wrap, deserialize_utxo_wrap}
use boxd.Types.Utxo.{UtxoWrap, new_utxo_wrap, is_spent}

decode_nonempty :
    (t : List ℕ) (r : ℕ × List ℕ × ℕ) → decode_compressed_tx_out t ≡ ok r → 0 < length t
unfolding decode_compressed_tx_out deserialize_vlq
decode_nonempty [] r h = absurd (cc h)
decode_nonempty (b ∷ t) r h = omega arith

back :
    (code value size : ℕ) (s t : List ℕ)
    → IsU64 code
    → decode_compressed_tx_out t ≡ ok (value, s, size)
    → deserialize_utxo_wrap (vlq code ++ t) ≡ ok (new_utxo_wrap value s (code / 2 % 2 ^ 32))
unfolding deserialize_utxo_wrap
back code value size s t h e =
    let some_bytes = decode_nonempty t _ e in
    let front = length-vlq code h in
    rw
      (
        deserialize_vlq-vlq code t h,
        lt→leb (serialize_size_vlq code) (length (vlq code ++ t))
            (omega (arith, length-append (vlq code) t, front)),
        drop-append (vlq code) t _ (sym front),
        e,
      )
      (unfold decoding in refl)

-- An unspent output with a canonical script and a value of at most (2 ^ 64 - 1) / 9 is stored as
-- bytes from which the same value, script and height are read, marked as modified. The height is a
-- uint32, and the stored form is shorter than 2 ^ 62 bytes.
pub deserialize_utxo_wrap-serialize_utxo_wrap :
    (w : UtxoWrap)
    → is_spent w ≡ false
    → 9 * w.value < 2 ^ 64
    → w.height < 2 ^ 32
    → IsCanonical w.script
    → length w.script < 2 ^ 62
    → compressed_tx_out_size w.value w.script < 2 ^ 62
    → (t : List ℕ) × (serialize_utxo_wrap w ≡ ok (some t))
      × (deserialize_utxo_wrap t ≡ ok (new_utxo_wrap w.value w.script w.height))
unfolding serialize_utxo_wrap utxo_wrap_header_code
deserialize_utxo_wrap-serialize_utxo_wrap w unspent small hh canonical short fits =
    let code = mul64 w.height 2 in
    let n = serialize_size_vlq code in
    let size = compressed_tx_out_size w.value w.script in
    let zeros : List ℕ = replicate (n + size) 0 in
    let room : length zeros ≡ n + size = length-replicate (n + size) 0 in
    let target : List ℕ = drop n zeros in
    let left : length target ≡ size = omega (arith, room, length-drop n zeros) in
    let u : IsU64 code = omega arith in
    let front = length-vlq code u in
    let written = put_vlq-vlq code zeros u (omega (arith, room)) in
    let (t, compressed, decoded, behind) =
      decode_compressed_tx_out-compressed_tx_out w.value w.script target small canonical short
        (omega (arith, left)) (omega (arith, left)) in
    let same : code / 2 % 2 ^ 32 ≡ w.height = omega arith in
    (
      vlq code ++ t,
      rw
          (
            unspent,
            written,
            drop-append (vlq code) target n (sym front),
            compressed,
            take-append (vlq code) target n (sym front),
          )
          (unfold decoding in refl),
      back code w.value size w.script t u decoded
          ∙ ap (λ (k : ℕ). ok (new_utxo_wrap w.value w.script k)) same,
    )
