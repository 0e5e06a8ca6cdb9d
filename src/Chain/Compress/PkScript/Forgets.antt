-- ===== src/Chain/Compress/PkScript/Forgets.antt =====
-- What `compressedScript` does not keep: the byte before the hash of a script that its other bytes
-- make look like a key hash script.
use boxd.Prelude.{
  ℕ, ◌≤◌, ◌≡◌, ap, ◌∙◌, true, List, [], ◌∷◌, ◌++◌, length, set, slice, take, take-append, drop,
  arith,
}
use boxd.Prelude.Result.{ok}
use boxd.Chain.Compress.PkScript.{
  is_pub_key_hash, compressed_script_size, compressed_script, decompress_script,
}
use boxd.Chain.Compress.PkScript.Template.{pub_key_hash-shape}
use boxd.Chain.Compress.PkScript.RoundTrip.{
  compressed, compressed_script-compressed, key_hash_length, decompress-key,
}
use boxd.Script.Opcode.{op_dup, op_hash160, op_data_20, op_equalverify, op_checksig}

-- For every script that passes `isPubKeyHash` and a slice of at least 21 bytes, what
-- `compressedScript` writes decompresses to the script with its third byte replaced by 20. So a
-- script with another third byte is not the one that is read back.
pub decompress_script-third_byte :
    (s target : List ℕ)
    → (is_pub_key_hash s).0 ≡ true
    → 21 ≤ length target
    → (t : List ℕ) × (compressed_script target s ≡ ok (t, 21))
      × (decompress_script (take 21 t) ≡ ok (set s 2 op_data_20))
decompress_script-third_byte s target k room =
    let (shape, len, hash) = pub_key_hash-shape s k in
    let size : compressed_script_size s ≡ 21 = unfold compressed_script_size in rw k in
    let form : compressed s ≡ 0 ∷ slice s 3 23 = unfold compressed in rw k (ap (◌∷◌ 0) hash) in
    let twenty : length (slice s 3 23) ≡ 20 = rw (← hash) (key_hash_length s k) in
    let written : compressed_script target s ≡ ok (compressed s ++ drop 21 target, 21) =
      rw size at (compressed_script-compressed s target (omega arith) (omega arith)) in
    let front : take 21 (compressed s ++ drop 21 target) ≡ 0 ∷ slice s 3 23 =
      take-append (compressed s) (drop 21 target) 21 (omega (arith, ap length form)) ∙ form in
    let third : set s 2 op_data_20
        ≡ op_dup ∷ op_hash160 ∷ op_data_20 ∷ (slice s 3 23 ++ (op_equalverify ∷ op_checksig ∷ [])) =
      ap (λ (l : List ℕ). set l 2 op_data_20) shape in
    (
      compressed s ++ drop 21 target,
      written,
      rw (front, third) (decompress-key (slice s 3 23) twenty),
    )
