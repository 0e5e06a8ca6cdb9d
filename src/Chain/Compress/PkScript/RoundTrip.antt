-- ===== src/Chain/Compress/PkScript/RoundTrip.antt =====
-- `decompressScript` and `decodeCompressedScriptSize` against `compressedScript` and
-- `compressedScriptSize`.
use boxd.Prelude.{
  ℕ, ◌+◌, ◌-◌, ◌≤◌, ◌<◌, ◌≡◌, refl, ap, sym, ◌∙◌, Bool-cases, true, false, inl, inr, List, [], ◌∷◌,
  ◌++◌, append-nil, append_assoc, length, length-append, length-take, length-drop, get_or, take,
  take-append, take-all, drop, drop-append, drop-drop, drop-all, slice, ne→==, if◌then◌else◌, arith,
}
use boxd.Prelude.Words.{IsU64, sub64}
use boxd.Prelude.Result.{ok, ◌>>=◌}
use boxd.Chain.Compress.Vlq.{serialize_size_vlq, put_vlq, deserialize_vlq}
use boxd.Chain.Compress.Vlq.RoundTrip.{
  vlq, length-vlq, deserialize_vlq-vlq, put_vlq-vlq, serialize_size_vlq_bounds,
}
use boxd.Chain.Compress.PkScript.{
  is_pub_key_hash, is_script_hash, compressed_script_size, decode_compressed_script_size, copy,
  copy_hash, compressed_script, decompress_at, decompress_script,
}
use boxd.Chain.Compress.PkScript.Template.{pub_key_hash-shape, script_hash-shape}
use boxd.Script.Opcode.{op_dup, op_hash160, op_data_20, op_equalverify, op_checksig, op_equal}

-- A script that has the shape of a hash script also has its length byte before the hash.
pub record IsCanonical (s : List ℕ) : Type 0 where
  pub pub_key_hash : (is_pub_key_hash s).0 ≡ true → get_or s 2 0 ≡ op_data_20
  pub script_hash : (is_script_hash s).0 ≡ true → get_or s 1 0 ≡ op_data_20

-- The compressed form of a script.
unfoldable pub compressed : List ℕ → List ℕ
compressed s =
    if (is_pub_key_hash s).0
    then 0 ∷ (is_pub_key_hash s).1
    else if (is_script_hash s).0
    then 1 ∷ (is_script_hash s).1
    else vlq (length s + 6) ++ s

-- Which of the three forms a script takes.
data Form (s : List ℕ) : Type 0 where
  by_key : (is_pub_key_hash s).0 ≡ true → Form s
  by_script : (is_pub_key_hash s).0 ≡ false → (is_script_hash s).0 ≡ true → Form s
  general : (is_pub_key_hash s).0 ≡ false → (is_script_hash s).0 ≡ false → Form s

form : (s : List ℕ) → Form s
form s = elim (Bool-cases (is_pub_key_hash s).0) [
  | inl k ↦ by_key k
  | inr nk ↦ elim (Bool-cases (is_script_hash s).0) [
    | inl h ↦ by_script nk h
    | inr nh ↦ general nk nh
  ]
]

hash_length : (s : List ℕ) (i j : ℕ) → i + 20 ≡ j → j ≤ length s → length (slice s i j) ≡ 20
hash_length s i j e h = omega (arith, length-take (j - i) (drop i s), length-drop i s)

pub key_hash_length :
    (s : List ℕ) → (is_pub_key_hash s).0 ≡ true → length (is_pub_key_hash s).1 ≡ 20
key_hash_length s k =
    let (shape, len, hash) = pub_key_hash-shape s k in
    rw hash (hash_length s 3 23 refl (omega arith))

script_hash_length : (s : List ℕ) → (is_script_hash s).0 ≡ true → length (is_script_hash s).1 ≡ 20
script_hash_length s k =
    let (shape, len, hash) = script_hash-shape s k in
    rw hash (hash_length s 2 22 refl (omega arith))

pub length-compressed :
    (s : List ℕ) → IsU64 (length s + 6) → length (compressed s) ≡ compressed_script_size s
length-compressed s u = go (form s)
  where
    go : Form s → length (compressed s) ≡ compressed_script_size s
    go (by_key k) =
        unfold compressed compressed_script_size in rw k (omega (arith, key_hash_length s k))
    go (by_script nk h) =
        unfold compressed compressed_script_size in
        rw (nk, h) (omega (arith, script_hash_length s h))
    go (general nk nh) =
        unfold compressed compressed_script_size in
        rw (nk, nh)
          (omega (arith, length-append (vlq (length s + 6)) s, length-vlq (length s + 6) u))

copy-append :
    (target source : List ℕ)
    → length source ≤ length target
    → copy target source ≡ source ++ drop (length source) target
unfolding copy
copy-append [] [] h = refl
copy-append [] (y ∷ source) h = absurd (omega arith)
copy-append (x ∷ target) [] h = refl
copy-append (x ∷ target) (y ∷ source) h = ap (◌∷◌ y) (copy-append target source (omega arith))

copy_hash-append :
    (tag : ℕ) (hash target : List ℕ)
    → length hash ≡ 20
    → 21 ≤ length target
    → copy_hash tag hash target ≡ ok (tag ∷ (hash ++ drop 21 target), 21)
unfolding copy_hash
copy_hash-append tag hash target e h =
    let room : length (slice target 1 21) ≡ 20 = hash_length target 1 21 refl h in
    let cut : copy (slice target 1 21) hash ≡ hash =
      copy-append (slice target 1 21) hash (omega arith)
      ∙ rw (drop-all (length hash) (slice target 1 21) (omega arith), append-nil) in
    rw cut (ground arith)

-- The script is written behind its size.
splice :
    (v rest s : List ℕ) (n : ℕ)
    → n ≡ length v
    → length s ≤ length rest
    → take n (v ++ rest) ++ copy (drop n (v ++ rest)) s ≡ (v ++ s) ++ drop (length s) rest
splice v rest s n e h =
    rw (take-append v rest n e, drop-append v rest n e, copy-append rest s h, append_assoc)

general_written :
    (s target : List ℕ)
    → IsU64 (length s + 6)
    → serialize_size_vlq (length s + 6) + length s ≤ length target
    → ◌>>=◌ {B = List ℕ × ℕ}
        (put_vlq target (length s + 6))
        (λ (t, n). ok (take n t ++ copy (drop n t) s, n + length s))
      ≡ ok (
        (vlq (length s + 6) ++ s) ++ drop (serialize_size_vlq (length s + 6) + length s) target,
        serialize_size_vlq (length s + 6) + length s,
      )
general_written s target u room =
    let size = serialize_size_vlq (length s + 6) in
    rw (put_vlq-vlq (length s + 6) target u (omega arith)) (
      ground (
        arith,
        splice (vlq (length s + 6)) (drop size target) s size (sym (length-vlq _ u))
            (omega (arith, length-drop size target)),
        drop-drop size (length s) target,
      ))

-- What `compressedScript` leaves in a slice with room for the script.
pub compressed_script-compressed :
    (s target : List ℕ)
    → IsU64 (length s + 6)
    → compressed_script_size s ≤ length target
    → compressed_script target s
      ≡ ok (compressed s ++ drop (compressed_script_size s) target, compressed_script_size s)
compressed_script-compressed s target u fits = go (form s) fits
  where
    go :
        Form s
        → compressed_script_size s ≤ length target
        → compressed_script target s
          ≡ ok (compressed s ++ drop (compressed_script_size s) target, compressed_script_size s)
    go (by_key k) =
        unfold compressed compressed_script compressed_script_size in
        rw k (λ room. copy_hash-append 0 _ target (key_hash_length s k) room)
    go (by_script nk h) =
        unfold compressed compressed_script compressed_script_size in
        rw (nk, h) (λ room. copy_hash-append 1 _ target (script_hash_length s h) room)
    go (general nk nh) =
        unfold compressed compressed_script compressed_script_size in
        rw (nk, nh) (λ room. general_written s target u room)

decompress-cons :
    (c : List ℕ)
    → 0 < length c
    → decompress_script c ≡ decompress_at c (deserialize_vlq c).0 (deserialize_vlq c).1
unfolding decompress_script
decompress-cons [] h = absurd (omega arith)
decompress-cons (b ∷ c) h = refl

deserialize_vlq-tag :
    (rest : List ℕ) → (deserialize_vlq (0 ∷ rest) ≡ (0, 1)) × (deserialize_vlq (1 ∷ rest) ≡ (1, 1))
unfolding deserialize_vlq
deserialize_vlq-tag rest = (refl, refl)

-- A key hash and a script hash behind their tags.
pub decompress-key :
    (hash : List ℕ)
    → length hash ≡ 20
    → decompress_script (0 ∷ hash)
      ≡ ok (op_dup ∷ op_hash160 ∷ op_data_20 ∷ (hash ++ (op_equalverify ∷ op_checksig ∷ [])))
unfolding decompress_at
decompress-key hash e =
    decompress-cons (0 ∷ hash) (omega arith)
    ∙ rw ((deserialize_vlq-tag hash).0) (rw (e, take-all 20 hash (omega arith)))

decompress-script :
    (hash : List ℕ)
    → length hash ≡ 20
    → decompress_script (1 ∷ hash) ≡ ok (op_hash160 ∷ op_data_20 ∷ (hash ++ (op_equal ∷ [])))
unfolding decompress_at
decompress-script hash e =
    decompress-cons (1 ∷ hash) (omega arith)
    ∙ rw ((deserialize_vlq-tag hash).1) (rw (e, take-all 20 hash (omega arith)))

decompress-general :
    (s : List ℕ) → IsU64 (length s + 6) → decompress_script (vlq (length s + 6) ++ s) ≡ ok s
unfolding decompress_at
decompress-general s u =
    let size = serialize_size_vlq (length s + 6) in
    let whole : length (vlq (length s + 6) ++ s) ≡ size + length s =
      omega (arith, length-append (vlq (length s + 6)) s, length-vlq (length s + 6) u) in
    let less : sub64 (length s + 6) 6 ≡ length s = omega arith in
    let cut : take (size + length s - size) s ≡ s = take-all _ s (omega arith) in
    let (lo, hi) = serialize_size_vlq_bounds (length s + 6) u in
    decompress-cons _ (omega (arith, whole, lo))
    ∙ rw (deserialize_vlq-vlq (length s + 6) s u) (
        rw
          (
            less,
            ne→== (length s + 6) 0 (λ p. omega arith),
            ne→== (length s + 6) 1 (λ p. omega arith),
            whole,
            drop-append (vlq (length s + 6)) s size (sym (length-vlq _ u)),
            cut,
          )
          (ground arith))

-- A canonical script decompresses from its compressed form, and nothing panics.
pub decompress_script-compressed :
    (s : List ℕ) → IsCanonical s → IsU64 (length s + 6) → decompress_script (compressed s) ≡ ok s
decompress_script-compressed s c u = go (form s)
  where
    go : Form s → decompress_script (compressed s) ≡ ok s
    go (by_key k) =
        let (shape, len, hash) = pub_key_hash-shape s k in
        let back : op_dup
              ∷ op_hash160
              ∷ op_data_20
              ∷ (slice s 3 23 ++ (op_equalverify ∷ op_checksig ∷ []))
            ≡ s =
          ap
            (λ (b : ℕ).
              op_dup ∷ op_hash160 ∷ b ∷ (slice s 3 23 ++ (op_equalverify ∷ op_checksig ∷ [])))
            (sym (c.pub_key_hash k))
          ∙ sym shape in
        unfold compressed in rw k (decompress-key _ (key_hash_length s k) ∙ ap ok (rw hash back))
    go (by_script nk h) =
        let (shape, len, hash) = script_hash-shape s h in
        let back : op_hash160 ∷ op_data_20 ∷ (slice s 2 22 ++ (op_equal ∷ [])) ≡ s =
          ap (λ (b : ℕ). op_hash160 ∷ b ∷ (slice s 2 22 ++ (op_equal ∷ []))) (sym (c.script_hash h))
          ∙ sym shape in
        unfold compressed in
        rw (nk, h) (decompress-script _ (script_hash_length s h) ∙ ap ok (rw hash back))
    go (general nk nh) = unfold compressed in rw (nk, nh) (decompress-general s u)

-- The compressed form says how long it is, whatever follows it.
pub decode_compressed_script_size-compressed :
    (s rest : List ℕ)
    → IsU64 (length s + 16)
    → decode_compressed_script_size (compressed s ++ rest) ≡ compressed_script_size s
decode_compressed_script_size-compressed s rest u = go (form s)
  where
    go : Form s → decode_compressed_script_size (compressed s ++ rest) ≡ compressed_script_size s
    go (by_key k) =
        unfold compressed compressed_script_size decode_compressed_script_size in
        rw k (rw ((deserialize_vlq-tag _).0))
    go (by_script nk h) =
        unfold compressed compressed_script_size decode_compressed_script_size in
        rw (nk, h) (rw ((deserialize_vlq-tag _).1))
    go (general nk nh) =
        let (lo, hi) = serialize_size_vlq_bounds (length s + 6) (omega arith) in
        unfold compressed compressed_script_size decode_compressed_script_size in
        rw (nk, nh, append_assoc, deserialize_vlq-vlq (length s + 6) (s ++ rest) (omega arith))
          (rw
            (
              ne→== (serialize_size_vlq (length s + 6)) 0 (λ p. omega arith),
              ne→== (length s + 6) 0 (λ p. omega arith),
              ne→== (length s + 6) 1 (λ p. omega arith),
            )
            (omega arith))

-- For a canonical script of any real length and a slice with room for it, `compressedScript` does
-- not panic, returns `compressedScriptSize`, and leaves a slice that starts with the form that
-- `decompressScript` turns back into the script and whose length `decodeCompressedScriptSize`
-- finds; the bytes behind are as before.
pub decompress_script-compressed_script :
    (s target : List ℕ)
    → IsCanonical s
    → IsU64 (length s + 16)
    → compressed_script_size s ≤ length target
    → (t : List ℕ) × (compressed_script target s ≡ ok (t, compressed_script_size s))
      × (decompress_script (take (compressed_script_size s) t) ≡ ok s)
      × (decode_compressed_script_size t ≡ compressed_script_size s)
      × (drop (compressed_script_size s) t ≡ drop (compressed_script_size s) target)
decompress_script-compressed_script s target c u fits =
    let size : compressed_script_size s ≡ length (compressed s) =
      sym (length-compressed s (omega arith)) in
    (
      compressed s ++ drop (compressed_script_size s) target,
      compressed_script-compressed s target (omega arith) fits,
      rw (take-append (compressed s) (drop (compressed_script_size s) target) _ size)
          (decompress_script-compressed s c (omega arith)),
      decode_compressed_script_size-compressed s _ u,
      drop-append (compressed s) _ _ size,
    )
