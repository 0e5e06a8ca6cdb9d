-- ===== src/Script/Bytes.antt =====
-- Numbers as bytes, as the Go library has them: encoding/binary's little-endian words, and the
-- unsigned big-endian numbers of math/big (`SetBytes`, `Bytes`).
use boxd.Prelude.{
  ◌≤◌, ℕ, zero, suc, ◌+◌, ◌*◌, ◌/◌, ◌%◌, ◌^◌, ◌<◌, ◌≡◌, refl, ap, ◌∙◌, List, [], ◌∷◌, length, Acc,
  arith,
}
use boxd.Prelude.Order.{lt_wf}
use mathlib.Core.Logic.{dite, dif_pos, dif_neg}
use native.Mathlib.Bridge.{le_prop}
use native.Mathlib.Decide.{dec_lt}
use native.Mathlib.Nat.{pow-suc}

-- PutUint16, PutUint32, PutUint64 of `n` into `k` bytes.
unfoldable pub put_uint : ℕ → ℕ → List ℕ
put_uint zero n = []
put_uint (suc k) n = (n % 256) ∷ put_uint k (n / 256)

-- Uint16, Uint32, Uint64 of all bytes of a slice.
unfoldable pub uint : List ℕ → ℕ
uint [] = 0
uint (b ∷ bs) = b + 256 * uint bs

pub length-put_uint : (k n : ℕ) → length (put_uint k n) ≡ k
unfolding put_uint
length-put_uint zero n = refl
length-put_uint (suc k) n = ap suc (length-put_uint k (n / 256))

pub uint-put_uint : (k n : ℕ) → n < 256 ^ k → uint (put_uint k n) ≡ n
unfolding put_uint uint
uint-put_uint zero n h = omega arith
uint-put_uint (suc k) n h =
    let small : n < 256 ^ k * 256 = rw (← pow-suc 256 k) h in
    omega (arith, uint-put_uint k (n / 256) (omega arith))

big_loop : List ℕ → ℕ → ℕ
big_loop [] n = n
big_loop (b ∷ bs) n = big_loop bs (n * 256 + b)

-- new(big.Int).SetBytes(bs)
unfoldable pub big_of_bytes : List ℕ → ℕ
unfolding big_loop
big_of_bytes bs = big_loop bs 0

pub next_byte_lt : (n : ℕ) → 0 < n → n / 256 < n
next_byte_lt n h = omega arith

bytes_loop : (n : ℕ) → List ℕ → Acc ◌<◌ n → List ℕ
bytes_loop n bs (Acc.intro _ smaller) =
    dite (dec_lt 0 n) (λ h. bytes_loop (n / 256) ((n % 256) ∷ bs) (smaller _ (next_byte_lt n h)))
      (λ _. bs)

-- The bytes of a number, with no zero in front; `(*big.Int).Bytes()` of it and of its negation.
unfoldable pub bytes_of_big : ℕ → List ℕ
unfolding bytes_loop lt_wf dec_lt
bytes_of_big n = bytes_loop n [] (lt_wf.apply n)

big_loop-bytes_loop :
    (n : ℕ) (bs : List ℕ) (w : Acc ◌<◌ n) → big_loop (bytes_loop n bs w) 0 ≡ big_loop bs n
unfolding big_loop bytes_loop
big_loop-bytes_loop n bs (Acc.intro _ smaller) = elim (dec_lt 0 n) [
  | yes h ↦ rw (dif_pos _ le_prop h) (
      big_loop-bytes_loop (n / 256) ((n % 256) ∷ bs) (smaller _ (next_byte_lt n h))
      ∙ ap (big_loop bs) (omega arith))
  | no h ↦ rw (dif_neg (dec_lt 0 n) h) (ap (big_loop bs) (omega arith))
]

-- A number reads back from its bytes.
pub big_of_bytes-bytes_of_big : (n : ℕ) → big_of_bytes (bytes_of_big n) ≡ n
unfolding big_of_bytes bytes_of_big
big_of_bytes-bytes_of_big n = big_loop-bytes_loop n [] (lt_wf.apply n)

length-bytes_loop :
    (k n : ℕ) (bs : List ℕ) (w : Acc ◌<◌ n)
    → n < 256 ^ k
    → length (bytes_loop n bs w) ≤ k + length bs
unfolding bytes_loop
length-bytes_loop zero n bs (Acc.intro _ smaller) h =
    rw (dif_neg (dec_lt 0 n) (λ q. omega arith)) (omega arith)
length-bytes_loop (suc k) n bs (Acc.intro _ smaller) h = elim (dec_lt 0 n) [
  | yes q ↦ rw (dif_pos _ le_prop q) (
      let small : n < 256 ^ k * 256 = rw (← pow-suc 256 k) h in
      let rest : length (bytes_loop (n / 256) ((n % 256) ∷ bs) (smaller _ (next_byte_lt n q)))
          ≤ k + suc (length bs) =
        length-bytes_loop k (n / 256) ((n % 256) ∷ bs) (smaller _ (next_byte_lt n q))
          (omega arith) in
      omega (arith, rest))
  | no q ↦ rw (dif_neg (dec_lt 0 n) q) (omega arith)
]

-- A number below 256 ^ k has at most k bytes.
pub length-bytes_of_big : (k n : ℕ) → n < 256 ^ k → length (bytes_of_big n) ≤ k
unfolding bytes_of_big
length-bytes_of_big k n h = omega (arith, length-bytes_loop k n [] (lt_wf.apply n) h)
