-- ===== src/Chain/Compress/Vlq/Encode.antt =====
-- What `putVLQ` writes, in plain arithmetic.
use boxd.Prelude.{
  ℕ, zero, suc, ◌+◌, ◌-◌, ◌/◌, ◌%◌, ◌^◌, ◌≤◌, ◌<◌, bit_and, bit_or, ◌≡◌, refl, ap, sym, ◌∙◌, List,
  [], ◌∷◌, ◌++◌, length, length-append, set, set-append, drop, reverse, append_assoc, ltb, lt→ltb,
  le→ltb, ne→==, if◌then◌else◌, Acc, arith,
}
use boxd.Prelude.Result.{ok}
use boxd.Prelude.Bits.{bit_and-low_group, bit_or-top_bit, bit_or-zero}
use mathlib.Core.Logic.{dif_pos, dif_neg}
use native.Mathlib.Decide.{dec_lt}
use native.Mathlib.Bridge.{le_prop}
use boxd.Prelude.Words.{IsU64}
use boxd.Prelude.Order.{lt_wf}
use boxd.Chain.Compress.Vlq.Reverse.{reverse_loop-reverse}
use boxd.Chain.Compress.Vlq.{
  put_vlq, serialize_size_vlq, next_group_lt, serialize_size_loop, put_vlq_loop, reverse_loop,
  high_bit_mask,
}

-- The groups behind the first one, least significant first, for `n` below 128 ^ (k + 1).
unfoldable pub more_groups : ℕ → ℕ → List ℕ
more_groups zero n = (n % 128 + 128) ∷ []
more_groups (suc k) n =
    let rest = more_groups k (n / 128 - 1) in (n % 128 + 128) ∷ (if ltb 0x7f n then rest else [])

-- All groups, least significant first.
unfoldable pub groups : ℕ → ℕ → List ℕ
unfolding more_groups
groups k n = (n % 128) ∷ (if ltb 0x7f n then more_groups k (n / 128 - 1) else [])

group_byte : (n : ℕ) → bit_or (bit_and n 0x7f % 256) 0x80 ≡ n % 128 + 128
group_byte n =
    let e : bit_and n 0x7f % 256 ≡ n % 128 = omega (arith, bit_and-low_group n) in
    rw e (bit_or-top_bit (n % 128) (omega arith))

size_loop-more_groups :
    (k n size : ℕ) (w : Acc ◌<◌ n)
    → n < 128 ^ suc k
    → serialize_size_loop n (size + 1) w ≡ size + length (more_groups k n)
unfolding serialize_size_loop more_groups
size_loop-more_groups zero n size (Acc.intro _ smaller) h = ground arith
size_loop-more_groups (suc k) n size (Acc.intro _ smaller) h = grind (
  arith,
  λ (w : Acc ◌<◌ (n / 128 - 1)). size_loop-more_groups k (n / 128 - 1) (size + 1) w (omega arith),
)

pub length-more_groups : (k n : ℕ) → 1 ≤ length (more_groups k n)
unfolding more_groups
length-more_groups zero n = omega arith
length-more_groups (suc k) n = omega arith

-- The byte that a round behind the first one writes.
written :
    (n offset : ℕ)
    → 0 < offset
    → bit_or (bit_and n 0x7f % 256) (high_bit_mask offset) ≡ n % 128 + 128
unfolding high_bit_mask
written n offset pos = rw (ne→== offset 0 (omega arith)) (group_byte n)

room :
    (pre : List ℕ) (y : ℕ) (ys : List ℕ) (offset : ℕ)
    → offset ≡ length pre
    → offset < length (pre ++ (y ∷ ys))
room pre y ys offset e = omega (arith, length-append pre (y ∷ ys))

-- A round that goes on, and the last round.
put_vlq_loop_more :
    (target : List ℕ) (offset n : ℕ) (smaller : (m : ℕ) → m < n → Acc ◌<◌ m) (h : 0x7f < n)
    → 0 < offset
    → offset < length target
    → put_vlq_loop target offset n (Acc.intro n smaller)
      ≡ put_vlq_loop
          (set target offset (n % 128 + 128))
          (offset + 1)
          (n / 128 - 1)
          (smaller _ (next_group_lt n h))
unfolding put_vlq_loop
put_vlq_loop_more target offset n smaller h pos fits =
    rw (lt→ltb offset (length target) fits, dif_pos _ le_prop h, written n offset pos)

put_vlq_loop_last :
    (target : List ℕ) (offset n : ℕ) (smaller : (m : ℕ) → m < n → Acc ◌<◌ m)
    → n ≤ 0x7f
    → 0 < offset
    → offset < length target
    → put_vlq_loop target offset n (Acc.intro n smaller)
      ≡ ok (set target offset (n % 128 + 128), offset)
unfolding put_vlq_loop
put_vlq_loop_last target offset n smaller h pos fits = rw (
  lt→ltb offset (length target) fits,
  dif_neg (dec_lt 0x7f n) (λ p. omega arith),
  written n offset pos,
)

pub more_groups_more :
    (k n : ℕ) → 0x7f < n → more_groups (suc k) n ≡ (n % 128 + 128) ∷ more_groups k (n / 128 - 1)
unfolding more_groups
more_groups_more k n h = rw (lt→ltb 0x7f n h)

pub more_groups_last : (k n : ℕ) → n ≤ 0x7f → more_groups k n ≡ (n % 128 + 128) ∷ []
unfolding more_groups
more_groups_last zero n h = refl
more_groups_last (suc k) n h = rw (le→ltb 0x7f n h)

-- `pre` is what the loop has written, `ys` what it has not reached.
put_vlq_loop-more_groups :
    (k n : ℕ) (pre ys target : List ℕ) (offset : ℕ) (w : Acc ◌<◌ n)
    → n < 128 ^ suc k
    → target ≡ pre ++ ys
    → offset ≡ length pre
    → 0 < offset
    → length (more_groups k n) ≤ length ys
    → put_vlq_loop target offset n w
      ≡ ok (
        pre ++ (more_groups k n ++ drop (length (more_groups k n)) ys),
        offset + length (more_groups k n) - 1,
      )
put_vlq_loop-more_groups k n pre [] target offset w h e eo pos fits =
    absurd (omega (arith, length-more_groups k n))
put_vlq_loop-more_groups zero n pre (y ∷ ys) target offset (Acc.intro _ smaller) h e eo pos fits =
    rw (e, put_vlq_loop_last _ offset n smaller (omega arith) pos (room pre y ys offset eo))
      (rw (set-append pre y (n % 128 + 128) ys offset eo, more_groups_last zero n (omega arith))
        (ground arith))
put_vlq_loop-more_groups (suc k) n pre (y ∷ ys) target offset (Acc.intro _ smaller) h e eo pos
      fits =
    elim (dec_lt 0x7f n) [
      | yes more ↦
          let tail : length (more_groups k (n / 128 - 1)) ≤ length ys =
            omega (arith, ap length (more_groups_more k n more)) in
          rw
            (
              e,
              more_groups_more k n more,
              put_vlq_loop_more _ offset n smaller more pos (room pre y ys offset eo),
            )
            (put_vlq_loop-more_groups k (n / 128 - 1) (pre ++ ((n % 128 + 128) ∷ [])) ys _ _ _
                (omega arith)
                (set-append pre y (n % 128 + 128) ys offset eo
                  ∙ sym (append_assoc pre ((n % 128 + 128) ∷ []) ys))
                (omega (arith, length-append pre ((n % 128 + 128) ∷ []))) (omega arith) tail
              ∙ ground (
                arith,
                append_assoc pre ((n % 128 + 128) ∷ [])
                    (more_groups k (n / 128 - 1) ++ drop (length (more_groups k (n / 128 - 1))) ys),
              ))
      | no last ↦
          rw (e, put_vlq_loop_last _ offset n smaller (omega arith) pos (room pre y ys offset eo))
            (rw
              (
                set-append pre y (n % 128 + 128) ys offset eo,
                more_groups_last (suc k) n (omega arith),
              )
              (ground arith))
    ]

pub groups_more : (k n : ℕ) → 0x7f < n → groups k n ≡ (n % 128) ∷ more_groups k (n / 128 - 1)
unfolding groups
groups_more k n h = rw (lt→ltb 0x7f n h)

pub groups_last : (k n : ℕ) → n ≤ 0x7f → groups k n ≡ (n % 128) ∷ []
unfolding groups
groups_last k n h = rw (le→ltb 0x7f n h)

pub length-groups : (k n : ℕ) → 1 ≤ length (groups k n)
unfolding groups
length-groups k n = omega arith

first_written : (n : ℕ) → bit_or (bit_and n 0x7f % 256) (high_bit_mask 0) ≡ n % 128
unfolding high_bit_mask
first_written n = rw bit_or-zero (omega (arith, bit_and-low_group n))

first_more :
    (y n : ℕ) (ys : List ℕ) (smaller : (m : ℕ) → m < n → Acc ◌<◌ m) (h : 0x7f < n)
    → put_vlq_loop (y ∷ ys) 0 n (Acc.intro n smaller)
      ≡ put_vlq_loop ((n % 128) ∷ ys) (0 + 1) (n / 128 - 1) (smaller _ (next_group_lt n h))
unfolding put_vlq_loop
first_more y n ys smaller h =
    rw (lt→ltb 0 (suc (length ys)) (omega arith), dif_pos _ le_prop h, first_written n)

first_last :
    (y n : ℕ) (ys : List ℕ) (smaller : (m : ℕ) → m < n → Acc ◌<◌ m)
    → n ≤ 0x7f
    → put_vlq_loop (y ∷ ys) 0 n (Acc.intro n smaller) ≡ ok ((n % 128) ∷ ys, 0)
unfolding put_vlq_loop
first_last y n ys smaller h = rw (
  lt→ltb 0 (suc (length ys)) (omega arith),
  dif_neg (dec_lt 0x7f n) (λ p. omega arith),
  first_written n,
)

-- The first loop writes all groups, least significant first.
put_vlq_loop-groups :
    (k n : ℕ) (target : List ℕ) (w : Acc ◌<◌ n)
    → n < 128 ^ suc (suc k)
    → length (groups k n) ≤ length target
    → put_vlq_loop target 0 n w
      ≡ ok (groups k n ++ drop (length (groups k n)) target, length (groups k n) - 1)
put_vlq_loop-groups k n [] w h fits = unfold groups in absurd (omega arith)
put_vlq_loop-groups k n (y ∷ ys) (Acc.intro _ smaller) h fits = elim (dec_lt 0x7f n) [
  | yes more ↦
      rw (first_more y n ys smaller more, groups_more k n more)
        (put_vlq_loop-more_groups k (n / 128 - 1) ((n % 128) ∷ []) ys _ _ _ (omega arith) refl
            (omega arith) (omega arith) (omega (arith, ap length (groups_more k n more)))
          ∙ ground arith)
  | no last ↦
      rw (first_last y n ys smaller (omega arith), groups_last k n (omega arith)) (ground arith)
]

-- `putVLQ` writes the groups of a uint64, most significant first, and nothing behind them.
pub put_vlq-groups :
    (n : ℕ) (target : List ℕ)
    → IsU64 n
    → length (groups 8 n) ≤ length target
    → put_vlq target n
      ≡ ok (reverse (groups 8 n) ++ drop (length (groups 8 n)) target, length (groups 8 n))
unfolding put_vlq
put_vlq-groups n target h fits =
    let turned : reverse_loop (length (groups 8 n) - 1) 0 (length (groups 8 n) - 1)
          (groups 8 n ++ drop (length (groups 8 n)) target)
        ≡ reverse (groups 8 n) ++ drop (length (groups 8 n)) target =
      reverse_loop-reverse (length (groups 8 n) - 1) 0 (length (groups 8 n) - 1) [] (groups 8 n) _ _
        refl refl (omega arith) (omega arith) in
    rw (put_vlq_loop-groups 8 n target _ (omega arith) fits)
      (ground (arith, turned, length-groups 8 n))

size_loop-groups :
    (k n : ℕ) (w : Acc ◌<◌ n)
    → n < 128 ^ suc (suc k)
    → serialize_size_loop n 1 w ≡ length (groups k n)
unfolding serialize_size_loop
size_loop-groups k n (Acc.intro _ smaller) h = elim (dec_lt 0x7f n) [
  | yes more ↦
      rw (dif_pos _ le_prop more, groups_more k n more)
        (size_loop-more_groups k (n / 128 - 1) 1 (smaller _ (next_group_lt n more)) (omega arith)
          ∙ omega arith)
  | no last ↦ rw (dif_neg (dec_lt 0x7f n) last, groups_last k n (omega arith))
]

pub serialize_size_vlq-groups : (n : ℕ) → IsU64 n → serialize_size_vlq n ≡ length (groups 8 n)
unfolding serialize_size_vlq
serialize_size_vlq-groups n h = size_loop-groups 8 n (lt_wf.apply n) (omega arith)
