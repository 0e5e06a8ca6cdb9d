-- ===== src/Chain/Compress/PkScript/Tests.antt =====
-- Runs of the script functions of core/chain/compress.go, and the theorems at concrete scripts.
use boxd.Prelude.{ℕ, ◌≡◌, refl, List, [], ◌∷◌, ◌++◌, replicate, take, drop, set, arith}
use boxd.Prelude.Result.{ok, panic}
use boxd.Chain.Compress.Vlq.{deserialize_vlq}
use boxd.Chain.Compress.PkScript.{
  is_pub_key_hash, is_script_hash, compressed_script_size, decode_compressed_script_size,
  compressed_script, decompress_script,
}
use boxd.Chain.Compress.PkScript.RoundTrip.{IsCanonical, decompress_script-compressed_script}
use boxd.Chain.Compress.PkScript.Forgets.{decompress_script-third_byte}
use boxd.Script.Opcode.{op_data_20}

abbrev key_script : ℕ → List ℕ
key_script b = 0x76 ∷ 0xa9 ∷ b ∷ (replicate 20 7 ++ (0x88 ∷ 0xac ∷ []))

abbrev room : List ℕ
room = replicate 24 0

key_script_stored :
    compressed_script (replicate 22 0) (key_script 20) ≡ ok (0 ∷ (replicate 20 7 ++ (0 ∷ [])), 21)
unfolding compressed_script is_pub_key_hash
key_script_stored = refl

-- A size byte that no script has: the size wraps and the slice panics.
wrapped_size : decompress_script (2 ∷ 9 ∷ []) ≡ panic
unfolding decompress_script deserialize_vlq
wrapped_size = refl

key_script-IsCanonical : IsCanonical (key_script 20)
unfolding is_pub_key_hash is_script_hash
key_script-IsCanonical = record { pub_key_hash = λ h. refl; script_hash = λ h. ground arith }

decompress_script-compressed_script_example :
    (t : List ℕ) × (compressed_script room (key_script 20)
      ≡ ok (t, compressed_script_size (key_script 20)))
    × (decompress_script (take (compressed_script_size (key_script 20)) t) ≡ ok (key_script 20))
    × (decode_compressed_script_size t ≡ compressed_script_size (key_script 20))
    × (drop (compressed_script_size (key_script 20)) t
        ≡ drop (compressed_script_size (key_script 20)) room)
decompress_script-compressed_script_example =
    decompress_script-compressed_script (key_script 20) room key_script-IsCanonical (omega arith)
      (unfold compressed_script_size is_pub_key_hash in omega arith)

decompress_script-third_byte_example :
    (t : List ℕ) × (compressed_script room (key_script 21) ≡ ok (t, 21))
    × (decompress_script (take 21 t) ≡ ok (set (key_script 21) 2 op_data_20))
decompress_script-third_byte_example =
    decompress_script-third_byte (key_script 21) room (unfold is_pub_key_hash in refl) (omega arith)
