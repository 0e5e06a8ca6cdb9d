-- ===== src/Chain/Compress/Vlq.antt =====
-- core/chain/compress.go: variable length quantities, most significant group first, where each
-- continued group counts from one. A byte slice is a list; a write past its end is a panic.
pub mod Encode
pub mod RoundTrip
mod Reverse
mod Tests
use boxd.Prelude.{
  ℕ, zero, suc, ◌+◌, ◌-◌, ◌*◌, ◌/◌, ◌%◌, ◌<◌, bit_and, bit_or, Bool, List, [], ◌∷◌, length, set,
  get_or, ltb, ◌==◌, if◌then◌else◌, Acc, arith,
}
use boxd.Prelude.Words.{add64, mul64}
use boxd.Prelude.Result.{Result, ok, panic, ◌>>=◌}
use boxd.Prelude.Order.{lt_wf}
use mathlib.Core.Logic.{dite}
use native.Mathlib.Decide.{dec_lt}

-- The errors of `decodeCompressedTxOut`.
pub data Error : Type 0 where
  end_after_amount end_after_script_size : Error

pub next_group_lt : (n : ℕ) → 0x7f < n → n / 128 - 1 < n
next_group_lt n h = omega arith

-- for ; n > 0x7f; n = (n >> 7) - 1 { size++ }
pub serialize_size_loop : (n size : ℕ) → Acc ◌<◌ n → ℕ
serialize_size_loop n size (Acc.intro _ smaller) =
    dite (dec_lt 0x7f n)
      (λ h. serialize_size_loop (n / 128 - 1) (size + 1) (smaller _ (next_group_lt n h)))
      (λ _. size)

unfoldable pub serialize_size_vlq : ℕ → ℕ
unfolding serialize_size_loop lt_wf dec_lt
serialize_size_vlq n = serialize_size_loop n 1 (lt_wf.apply n)

pub high_bit_mask : ℕ → ℕ
high_bit_mask offset = if offset == 0 then 0x00 else 0x80

-- The first loop: least significant group first, from `target[offset]` on.
pub put_vlq_loop : List ℕ → ℕ → (n : ℕ) → Acc ◌<◌ n → Result Error (List ℕ × ℕ)
unfolding high_bit_mask
put_vlq_loop target offset n (Acc.intro _ smaller) =
    let target' = set target offset (bit_or (bit_and n 0x7f % 256) (high_bit_mask offset)) in
    if ltb offset (length target)
    then dite (dec_lt 0x7f n)
        (λ h. put_vlq_loop target' (offset + 1) (n / 128 - 1) (smaller _ (next_group_lt n h)))
        (λ _. ok (target', offset))
    else panic

-- target[i], target[j] = target[j], target[i]
pub swap : List ℕ → ℕ → ℕ → List ℕ
swap target i j = set (set target i (get_or target j 0)) j (get_or target i 0)

-- for i, j := 0, offset; i < j; i, j = i+1, j-1 { swap }, with at most `fuel` rounds.
pub reverse_loop : ℕ → ℕ → ℕ → List ℕ → List ℕ
unfolding swap
reverse_loop zero i j target = target
reverse_loop (suc fuel) i j target =
    let rest = reverse_loop fuel (i + 1) (j - 1) (swap target i j) in
    if ltb i j then rest else target

-- The two slices of a round lie `j - i` apart, so `offset` rounds are enough.
unfoldable pub put_vlq : List ℕ → ℕ → Result Error (List ℕ × ℕ)
unfolding put_vlq_loop lt_wf dec_lt reverse_loop
put_vlq target n = do
  (target', offset) ← put_vlq_loop target 0 n (lt_wf.apply n)
  ok (reverse_loop offset 0 offset target', offset + 1)

pub deserialize_loop : List ℕ → ℕ → ℕ → ℕ × ℕ
deserialize_loop [] n size = (n, size)
deserialize_loop (val ∷ rest) n size =
    let n' = bit_or (mul64 n 128) (bit_and val 0x7f) in
    if bit_and val 0x80 == 0x80
    then deserialize_loop rest (add64 n' 1) (size + 1)
    else (n', size + 1)

unfoldable pub deserialize_vlq : List ℕ → ℕ × ℕ
unfolding deserialize_loop
deserialize_vlq serialized = deserialize_loop serialized 0 0
