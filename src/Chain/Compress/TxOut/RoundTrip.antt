-- ===== src/Chain/Compress/TxOut/RoundTrip.antt =====
-- `decodeCompressedTxOut` against `compressedTxOut` and `compressedTxOutSize`.
use boxd.Prelude.{
  ℕ, Bool, true, false, Bool-cases, inl, inr, ◌+◌, ◌==◌, lt→leb, ◌-◌, ◌*◌, ◌%◌, ◌^◌, ◌≤◌, ◌<◌, ◌≡◌,
  refl, sym, ◌∙◌, List, ◌++◌, append_assoc, length, length-append, length-drop, take-append, drop,
  drop-append, drop-drop, le→ltb, ltb, if◌then◌else◌, arith,
}
use boxd.Prelude.Words.{IsU64}
use boxd.Prelude.Result.{ok}
use boxd.Chain.Compress.Vlq.{serialize_size_vlq}
use boxd.Chain.Compress.Vlq.RoundTrip.{
  vlq, length-vlq, deserialize_vlq-vlq, put_vlq-vlq, serialize_size_vlq_bounds,
}
use boxd.Chain.Compress.Amount.{strip_zeros, compress_tx_out_value, decompress_tx_out_value}
use boxd.Chain.Compress.Amount.RoundTrip.{decompress-compress_tx_out_value}
use boxd.Chain.Compress.PkScript.{is_pub_key_hash, is_script_hash, compressed_script_size}
use boxd.Chain.Compress.PkScript.RoundTrip.{
  IsCanonical, compressed, length-compressed, compressed_script-compressed,
  decompress_script-compressed, decode_compressed_script_size-compressed,
}
use boxd.Chain.Compress.TxOut.{compressed_tx_out_size, compressed_tx_out, decode_compressed_tx_out}

IsU64-if : (b : Bool) (x y : ℕ) → IsU64 x → IsU64 y → IsU64 (if b then x else y)
IsU64-if true x y hx hy = hx
IsU64-if false x y hx hy = hy

IsU64-compress_tx_out_value : (value : ℕ) → IsU64 (compress_tx_out_value value)
unfolding compress_tx_out_value
IsU64-compress_tx_out_value value =
    IsU64-if (value == 0) _ _ (omega arith)
      (IsU64-if (ltb (strip_zeros 9 value 0).1 9) _ _ (omega arith) (omega arith))

compressed_script_size_pos : (s : List ℕ) → IsU64 (length s + 6) → 0 < compressed_script_size s
unfolding compressed_script_size
compressed_script_size_pos s u =
    let (lo, hi) = serialize_size_vlq_bounds (length s + 6) u in
    elim (Bool-cases (is_pub_key_hash s).0) [
      | inl k ↦ rw k (omega arith)
      | inr nk ↦ elim (Bool-cases (is_script_hash s).0) [
        | inl h ↦ rw (nk, h) (omega arith)
        | inr nh ↦ rw (nk, nh) (omega arith)
      ]
    ]

-- The bytes that `compressedTxOut` leaves in a slice with room for them.
compressed_tx_out-bytes :
    (value : ℕ) (s target : List ℕ)
    → IsU64 (length s + 6)
    → compressed_tx_out_size value s ≤ length target
    → compressed_tx_out target value s
      ≡ ok (
        vlq (compress_tx_out_value value)
            ++ (compressed s ++ drop (compressed_tx_out_size value s) target),
        compressed_tx_out_size value s,
      )
unfolding compressed_tx_out compressed_tx_out_size
compressed_tx_out-bytes value s target u fits =
    let amount = compress_tx_out_value value in
    let size = serialize_size_vlq amount in
    let small = IsU64-compress_tx_out_value value in
    rw (put_vlq-vlq amount target small (omega arith)) (
      rw (
        drop-append (vlq amount) (drop size target) size (sym (length-vlq amount small)),
        take-append (vlq amount) (drop size target) size (sym (length-vlq amount small)),
        compressed_script-compressed s (drop size target) u
            (omega (arith, length-drop size target)),
        drop-drop size (compressed_script_size s) target,
      ))

decode-bytes :
    (amount : ℕ) (s rest : List ℕ)
    → IsU64 amount
    → IsCanonical s
    → length s < 2 ^ 62
    → length (compressed s ++ rest) < 2 ^ 63
    → decode_compressed_tx_out (vlq amount ++ (compressed s ++ rest))
      ≡ ok (decompress_tx_out_value amount, s, serialize_size_vlq amount + compressed_script_size s)
unfolding decode_compressed_tx_out
decode-bytes amount s rest small c u room =
    let size = compressed_script_size s in
    let len : length (compressed s ++ rest) ≡ size + length rest =
      omega (arith, length-append (compressed s) rest, length-compressed s (omega arith)) in
    let all : length (vlq amount ++ (compressed s ++ rest))
        ≡ serialize_size_vlq amount + (size + length rest) =
      omega
        (arith, length-append (vlq amount) (compressed s ++ rest), length-vlq amount small, len) in
    let some_byte : 0 < size = compressed_script_size_pos s (omega arith) in
    let width : serialize_size_vlq amount + size - serialize_size_vlq amount ≡ size = omega arith in
    rw (
      deserialize_vlq-vlq amount (compressed s ++ rest) small,
      drop-append (vlq amount) (compressed s ++ rest) _ (sym (length-vlq amount small)),
      decode_compressed_script_size-compressed s rest (omega arith),
      all,
      len,
      width,
      take-append (compressed s) rest size (sym (length-compressed s (omega arith))),
      decompress_script-compressed s c (omega arith),
      lt→leb (serialize_size_vlq amount) (serialize_size_vlq amount + (size + length rest))
          (omega arith),
      le→ltb ((size + length rest + 2 ^ 63) % 2 ^ 64) ((size + 2 ^ 63) % 2 ^ 64) (omega arith),
      lt→leb size (2 ^ 63) (omega arith),
    )

-- For an output whose value is at most (2 ^ 64 - 1) / 9 and whose script is canonical, and a slice
-- with room for it, `compressedTxOut` does not panic, returns `compressedTxOutSize`, and leaves a
-- slice from which `decodeCompressedTxOut` reads the value, the script and that size; the bytes
-- behind are as before. Slices are shorter than 2 ^ 62.
pub decode_compressed_tx_out-compressed_tx_out :
    (value : ℕ) (s target : List ℕ)
    → 9 * value < 2 ^ 64
    → IsCanonical s
    → length s < 2 ^ 62
    → length target < 2 ^ 62
    → compressed_tx_out_size value s ≤ length target
    → (t : List ℕ) × (compressed_tx_out target value s ≡ ok (t, compressed_tx_out_size value s))
      × (decode_compressed_tx_out t ≡ ok (value, s, compressed_tx_out_size value s))
      × (drop (compressed_tx_out_size value s) t ≡ drop (compressed_tx_out_size value s) target)
decode_compressed_tx_out-compressed_tx_out value s target small c u v fits =
    let amount = compress_tx_out_value value in
    let rest : List ℕ = drop (compressed_tx_out_size value s) target in
    let is_u64 = IsU64-compress_tx_out_value value in
    let front : length (compressed s) ≡ compressed_script_size s =
      length-compressed s (omega arith) in
    let sum : serialize_size_vlq amount + compressed_script_size s
        ≡ compressed_tx_out_size value s =
      unfold compressed_tx_out_size in refl in
    let room : length (compressed s ++ rest) < 2 ^ 63 = omega (
      arith,
      length-append (compressed s) rest,
      front,
      length-drop (compressed_tx_out_size value s) target,
    ) in
    (
      vlq amount ++ (compressed s ++ rest),
      compressed_tx_out-bytes value s target (omega arith) fits,
      decode-bytes amount s rest is_u64 c u room
          ∙ rw (decompress-compress_tx_out_value value small, sum),
      rw (← append_assoc (vlq amount) (compressed s) rest) (
          drop-append (vlq amount ++ compressed s) rest _ (
            omega (
              arith,
              length-append (vlq amount) (compressed s),
              front,
              length-vlq amount is_u64,
              sum,
            ))),
    )
