-- ===== src/Chain/Compress/Vlq/RoundTrip.antt =====
-- `deserializeVLQ` against `putVLQ` and `serializeSizeVLQ`.
use boxd.Prelude.{
  ℕ, zero, suc, ◌+◌, ◌-◌, ◌*◌, ◌/◌, ◌%◌, ◌^◌, ◌≤◌, ◌<◌, bit_and, bit_or, ◌≡◌, refl, ap, sym, ◌∙◌,
  List, [], ◌∷◌, ◌++◌, length, length-append, drop, drop-append, reverse, append_assoc, arith,
}
use boxd.Prelude.Words.{IsU64, mul64}
use boxd.Prelude.Bits.{bit_and-low_bits, bit_and-top_bit, bit_or-shifted}
use boxd.Prelude.Result.{ok}
use boxd.Chain.Compress.Vlq.{serialize_size_vlq, put_vlq, deserialize_loop, deserialize_vlq}
use boxd.Chain.Compress.Vlq.Encode.{
  more_groups, groups, more_groups_more, more_groups_last, groups_more, groups_last, put_vlq-groups,
  serialize_size_vlq-groups,
}
use mathlib.Core.List.{reverse-cons}
use native.Mathlib.Decide.{dec_lt}
use native.Mathlib.Numerals.{add-one}

-- `(n << 7) | group`, where nothing is shifted out.
shifted : (n g : ℕ) → g < 128 → IsU64 (n * 128 + g) → bit_or (mul64 n 128) g ≡ n * 128 + g
shifted n g hg h = let e : mul64 n 128 ≡ n * 128 = omega arith in rw e (bit_or-shifted n g hg)

-- A byte with the top bit set, and one without.
continued :
    (g n size : ℕ) (rest : List ℕ)
    → g < 128
    → IsU64 (n * 128 + g + 1)
    → deserialize_loop ((g + 128) ∷ rest) n size
      ≡ deserialize_loop rest (n * 128 + g + 1) (size + 1)
unfolding deserialize_loop
continued g n size rest hg h =
    let low : bit_and (g + 128) 0x7f ≡ g = omega (arith, bit_and-low_bits (g + 128)) in
    let top : bit_and (g + 128) 0x80 ≡ 128 = omega (arith, bit_and-top_bit (g + 128)) in
    let whole : (n * 128 + g + 1) % 2 ^ 64 ≡ n * 128 + g + 1 = omega arith in
    rw (top, low, shifted n g hg (omega arith), whole)

final :
    (g n size : ℕ) (rest : List ℕ)
    → g < 128
    → IsU64 (n * 128 + g)
    → deserialize_loop (g ∷ rest) n size ≡ (n * 128 + g, size + 1)
unfolding deserialize_loop
final g n size rest hg h =
    let low : bit_and g 0x7f ≡ g = omega (arith, bit_and-low_bits g) in
    let top : bit_and g 0x80 ≡ 0 = omega (arith, bit_and-top_bit g) in
    rw (top, low, shifted n g hg h)

length-reverse : (xs : List ℕ) → length (reverse xs) ≡ length xs
length-reverse [] = refl
length-reverse (x ∷ xs) =
    rw reverse-cons (omega (arith, length-append (reverse xs) (x ∷ []), length-reverse xs))

length-more_groups-le : (k n : ℕ) → length (more_groups k n) ≤ k + 1
unfolding more_groups
length-more_groups-le zero n = omega arith
length-more_groups-le (suc k) n = ground (arith, length-more_groups-le k (n / 128 - 1))

length-groups_bounds : (k n : ℕ) → (1 ≤ length (groups k n)) × (length (groups k n) ≤ k + 2)
unfolding groups
length-groups_bounds k n = ground (arith, length-more_groups-le k (n / 128 - 1))

-- The groups behind the first one read back as one more than the number.
deserialize_loop-more_groups :
    (k n : ℕ) (rest : List ℕ)
    → n < 128 ^ suc k
    → IsU64 (n + 1)
    → deserialize_loop (reverse (more_groups k n) ++ rest) 0 0
      ≡ deserialize_loop rest (n + 1) (length (more_groups k n))
deserialize_loop-more_groups zero n rest h fits = rw (more_groups_last zero n (omega arith)) (
    continued (n % 128) 0 0 rest (omega arith) (omega arith)
    ∙ ap (λ (m : ℕ). deserialize_loop rest m 1) (omega arith))
deserialize_loop-more_groups (suc k) n rest h fits = elim (dec_lt 0x7f n) [
  | yes more ↦
      let e : (n / 128 - 1 + 1) * 128 + n % 128 + 1 ≡ n + 1 = omega arith in
      rw (
        more_groups_more k n more,
        reverse-cons,
        append_assoc,
        deserialize_loop-more_groups k (n / 128 - 1) ((n % 128 + 128) ∷ rest) (omega arith)
            (omega arith),
        continued (n % 128) (n / 128 - 1 + 1) (length (more_groups k (n / 128 - 1))) rest
            (omega arith) (omega arith),
        e,
        add-one (length (more_groups k (n / 128 - 1))),
      )
  | no last ↦ rw (more_groups_last (suc k) n (omega arith)) (
      continued (n % 128) 0 0 rest (omega arith) (omega arith)
      ∙ ap (λ (m : ℕ). deserialize_loop rest m 1) (omega arith))
]

deserialize_vlq-groups :
    (n : ℕ) (rest : List ℕ)
    → IsU64 n
    → deserialize_vlq (reverse (groups 8 n) ++ rest) ≡ (n, length (groups 8 n))
unfolding deserialize_vlq
deserialize_vlq-groups n rest h = elim (dec_lt 0x7f n) [
  | yes more ↦
      rw
        (
          groups_more 8 n more,
          reverse-cons,
          append_assoc,
          deserialize_loop-more_groups 8 (n / 128 - 1) ((n % 128) ∷ rest) (omega arith)
              (omega arith),
          final (n % 128) (n / 128 - 1 + 1) (length (more_groups 8 (n / 128 - 1))) rest
              (omega arith) (omega arith),
        )
        (ground arith)
  | no last ↦
      rw (groups_last 8 n (omega arith), final (n % 128) 0 0 rest (omega arith) (omega arith))
        (ground arith)
]

-- The encoding of a number: its groups, most significant first.
unfoldable pub vlq : ℕ → List ℕ
vlq n = reverse (groups 8 n)

pub length-vlq : (n : ℕ) → IsU64 n → length (vlq n) ≡ serialize_size_vlq n
unfolding vlq
length-vlq n h = length-reverse (groups 8 n) ∙ sym (serialize_size_vlq-groups n h)

-- What is written reads back, whatever follows it.
pub deserialize_vlq-vlq :
    (n : ℕ) (rest : List ℕ) → IsU64 n → deserialize_vlq (vlq n ++ rest) ≡ (n, serialize_size_vlq n)
unfolding vlq
deserialize_vlq-vlq n rest h = rw (serialize_size_vlq-groups n h) (deserialize_vlq-groups n rest h)

-- The bytes that `putVLQ` leaves in a slice with room for them.
pub put_vlq-vlq :
    (n : ℕ) (target : List ℕ)
    → IsU64 n
    → serialize_size_vlq n ≤ length target
    → put_vlq target n ≡ ok (vlq n ++ drop (serialize_size_vlq n) target, serialize_size_vlq n)
unfolding vlq
put_vlq-vlq n target h fits =
    let e : serialize_size_vlq n ≡ length (groups 8 n) = serialize_size_vlq-groups n h in
    rw e (put_vlq-groups n target h (omega (arith, e)))

-- For a uint64 and a slice of at least `serializeSizeVLQ` bytes, `putVLQ` does not panic, returns
-- that size, and leaves a slice that `deserializeVLQ` reads back as the number and the size; the
-- bytes of the slice behind the number are as before.
pub deserialize_vlq-put_vlq :
    (n : ℕ) (target : List ℕ)
    → IsU64 n
    → serialize_size_vlq n ≤ length target
    → (t : List ℕ) × (put_vlq target n ≡ ok (t, serialize_size_vlq n))
      × (deserialize_vlq t ≡ (n, serialize_size_vlq n))
      × (drop (serialize_size_vlq n) t ≡ drop (serialize_size_vlq n) target)
deserialize_vlq-put_vlq n target h fits = (
  vlq n ++ drop (serialize_size_vlq n) target,
  put_vlq-vlq n target h fits,
  deserialize_vlq-vlq n _ h,
  drop-append (vlq n) _ _ (sym (length-vlq n h)),
)

-- The size of an encoded uint64 is between 1 and 10 bytes.
pub serialize_size_vlq_bounds :
    (n : ℕ) → IsU64 n → (1 ≤ serialize_size_vlq n) × (serialize_size_vlq n ≤ 10)
serialize_size_vlq_bounds n h =
    let (lo, hi) = length-groups_bounds 8 n in
    let e : serialize_size_vlq n ≡ length (groups 8 n) = serialize_size_vlq-groups n h in
    (omega arith, omega arith)
