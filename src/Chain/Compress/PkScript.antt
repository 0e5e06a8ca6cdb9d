-- ===== src/Chain/Compress/PkScript.antt =====
-- core/chain/compress.go: compressed public key scripts. A slice has no room behind its length.
pub mod Template
pub mod RoundTrip
pub mod Forgets
mod Tests
use boxd.Prelude.{
  ℕ, ◌+◌, ◌-◌, Bool, true, false, ◌&&◌, List, [], ◌∷◌, ◌++◌, length, get_or, take, drop, slice, set,
  ltb, leb, ◌==◌, if◌then◌else◌,
}
use boxd.Prelude.Words.{add64, sub64}
use boxd.Prelude.Result.{Result, ok, panic, ◌>>=◌}
use boxd.Chain.Compress.Vlq.{Error, serialize_size_vlq, put_vlq, deserialize_vlq}
use boxd.Script.Opcode.{op_dup, op_hash160, op_data_20, op_equalverify, op_checksig, op_equal}

abbrev pub p2pkh : ℕ
p2pkh = 0

abbrev pub p2sh : ℕ
p2sh = 1

abbrev pub special_scripts : ℕ
special_scripts = 6

unfoldable pub is_pub_key_hash : List ℕ → Bool × List ℕ
is_pub_key_hash pk_script =
    if length pk_script == 25
      && (get_or pk_script 0 0 == op_dup
          && (get_or pk_script 1 0 == op_hash160
              && (get_or pk_script 23 0 == op_equalverify && get_or pk_script 24 0 == op_checksig)))
    then (true, slice pk_script 3 23)
    else (false, [])

unfoldable pub is_script_hash : List ℕ → Bool × List ℕ
is_script_hash pk_script =
    if length pk_script == 23
      && (get_or pk_script 0 0 == op_hash160 && get_or pk_script 22 0 == op_equal)
    then (true, slice pk_script 2 22)
    else (false, [])

unfoldable pub compressed_script_size : List ℕ → ℕ
compressed_script_size pk_script =
    if (is_pub_key_hash pk_script).0
    then 21
    else if (is_script_hash pk_script).0
    then 21
    else serialize_size_vlq (length pk_script + special_scripts) + length pk_script

-- The size as an int, given by its bit pattern: the subtraction wraps for the sizes 2 to 5.
unfoldable pub decode_compressed_script_size : List ℕ → ℕ
decode_compressed_script_size serialized =
    let (script_size, bytes_read) = deserialize_vlq serialized in
    if bytes_read == 0
    then 0
    else if script_size == p2pkh
    then 21
    else if script_size == p2sh
    then 21
    else add64 (sub64 script_size special_scripts) bytes_read

-- copy(target, source)
unfoldable pub copy : List ℕ → List ℕ → List ℕ
copy [] source = []
copy (x ∷ target) [] = x ∷ target
copy (x ∷ target) (y ∷ source) = y ∷ copy target source

-- target[0] = tag; copy(target[1:21], hash)
copy_hash : ℕ → List ℕ → List ℕ → Result Error (List ℕ × ℕ)
unfolding copy
copy_hash tag hash target =
    if leb 21 (length target)
    then ok (tag ∷ (copy (slice target 1 21) hash ++ drop 21 target), 21)
    else panic

unfoldable pub compressed_script : List ℕ → List ℕ → Result Error (List ℕ × ℕ)
unfolding copy_hash
compressed_script target pk_script =
    if (is_pub_key_hash pk_script).0
    then copy_hash p2pkh (is_pub_key_hash pk_script).1 target
    else if (is_script_hash pk_script).0
    then copy_hash p2sh (is_script_hash pk_script).1 target
    else do
      (target', vlq_size_len) ← put_vlq target (length pk_script + special_scripts)
      ok (
        take vlq_size_len target' ++ copy (drop vlq_size_len target') pk_script,
        vlq_size_len + length pk_script,
      )

-- The three forms, each with its slice of the compressed script. A size that wrapped, or one with
-- no bytes to it, panics where the script is made or where the slice is cut.
decompress_at : List ℕ → ℕ → ℕ → Result Error (List ℕ)
decompress_at compressed encoded_script_size bytes_read =
    if encoded_script_size == p2pkh
    then if leb (bytes_read + 20) (length compressed)
      then ok (
          op_dup
          ∷ op_hash160
          ∷ op_data_20
          ∷ (slice compressed bytes_read (bytes_read + 20) ++ (op_equalverify ∷ op_checksig ∷ [])))
      else panic
    else if encoded_script_size == p2sh
    then if leb (bytes_read + 20) (length compressed)
      then ok (
          op_hash160
          ∷ op_data_20
          ∷ (slice compressed bytes_read (bytes_read + 20) ++ (op_equal ∷ [])))
      else panic
    else let script_size = sub64 encoded_script_size special_scripts in
      if leb (bytes_read + script_size) (length compressed)
      then ok (slice compressed bytes_read (bytes_read + script_size))
      else panic

unfoldable pub decompress_script : List ℕ → Result Error (List ℕ)
unfolding decompress_at
decompress_script [] = ok []
decompress_script (b ∷ compressed) =
    let (encoded_script_size, bytes_read) = deserialize_vlq (b ∷ compressed) in
    decompress_at (b ∷ compressed) encoded_script_size bytes_read
