-- ===== src/Prelude/Bits.antt =====
-- The masks and shifts that the program uses, as arithmetic.
use Prim.Native.Nat.{
  ℕ, zero, suc, ◌+◌, ◌*◌, ◌/◌, ◌%◌, ◌≤◌, ◌<◌, min, max, bit_and, bit_or, digits, bit_and-bitwise,
  bit_or-bitwise,
}
use mathlib.Core.Path.{◌≡◌, refl, ap, ◌∙◌}
use mathlib.Core.Bool.{Bool, true, ◌&&◌}
use native.Mathlib.Omega.{arith}
use boxd.Prelude.Tests.{◌==◌, ==→eq, eq→==}
use native.Mathlib.Decide.{dec_lt}

-- The binary digits of a number that is at most the fuel, with more fuel.
spare :
    (z : ℕ → ℕ) (f : ℕ → ℕ → ℕ) (a b less more : ℕ)
    → less ≤ more
    → a ≤ less
    → digits z f more a b ≡ digits z f less a b
spare z f zero b zero zero le h = refl
spare z f zero b zero (suc more) le h = refl
spare z f zero b (suc less) zero le h = absurd (omega arith)
spare z f zero b (suc less) (suc more) le h = refl
spare z f (suc a) b zero more le h = absurd (omega arith)
spare z f (suc a) b (suc less) zero le h = absurd (omega arith)
spare z f (suc a) b (suc less) (suc more) le h =
    let half : digits z f more (suc a / 2) (b / 2) ≡ digits z f less (suc a / 2) (b / 2) =
      spare z f (suc a / 2) (b / 2) less more (omega arith) (omega arith) in
    rw half refl

-- The digits of half of `suc a`, with the fuel that is left of `a`.
half_digits :
    (z : ℕ → ℕ) (f : ℕ → ℕ → ℕ) (a b : ℕ)
    → digits z f a (suc a / 2) b ≡ digits z f (suc a / 2) (suc a / 2) b
half_digits z f a b = spare z f (suc a / 2) b (suc a / 2) a (omega arith) (omega arith)

pub bit_and_digit : (a b : ℕ) → bit_and a b ≡ bit_and (a / 2) (b / 2) * 2 + min (a % 2) (b % 2)
bit_and_digit zero b = omega (arith, bit_and-bitwise 0 b, bit_and-bitwise 0 (b / 2))
bit_and_digit (suc a) b =
    let half = half_digits (λ _. 0) min a (b / 2) in
    omega (arith, half, bit_and-bitwise (suc a / 2) (b / 2), bit_and-bitwise (suc a) b)

pub bit_or_digit : (a b : ℕ) → bit_or a b ≡ bit_or (a / 2) (b / 2) * 2 + max (a % 2) (b % 2)
bit_or_digit zero b = omega (arith, bit_or-bitwise 0 b, bit_or-bitwise 0 (b / 2))
bit_or_digit (suc a) b =
    let half = half_digits (λ y. y) max a (b / 2) in
    omega (arith, half, bit_or-bitwise (suc a / 2) (b / 2), bit_or-bitwise (suc a) b)

nothing_below : (n a : ℕ) → a ≤ n → bit_and a 0 ≡ 0
nothing_below n zero h = bit_and-bitwise 0 0
nothing_below zero (suc a) h = absurd (omega arith)
nothing_below (suc n) (suc a) h =
    omega (arith, nothing_below n (suc a / 2) (omega arith), bit_and_digit (suc a) 0)

lowest_bit : (n : ℕ) → bit_and n 1 ≡ n % 2
lowest_bit n = omega (arith, nothing_below (n / 2) (n / 2) (omega arith), bit_and_digit n 1)

bit_or-zero_below : (n a : ℕ) → a ≤ n → bit_or a 0 ≡ a
bit_or-zero_below n zero h = bit_or-bitwise 0 0
bit_or-zero_below zero (suc a) h = absurd (omega arith)
bit_or-zero_below (suc n) (suc a) h =
    omega (arith, bit_or_digit (suc a) 0, bit_or-zero_below n (suc a / 2) (omega arith))

pub bit_or-zero : (a : ℕ) → bit_or a 0 ≡ a
bit_or-zero a = bit_or-zero_below a a (omega arith)

three_bits : (n : ℕ) → bit_and n 7 ≡ n % 8
three_bits n = omega (arith, lowest_bit (n / 2 / 2), bit_and_digit (n / 2) 3, bit_and_digit n 7)

-- `n & 0x7f` at any number.
pub bit_and-low_group : (n : ℕ) → bit_and n 0x7f ≡ n % 128
bit_and-low_group n = omega (
  arith,
  bit_and_digit n 127,
  bit_and_digit (n / 2) 63,
  bit_and_digit (n / 2 / 2) 31,
  bit_and_digit (n / 2 / 2 / 2) 15,
  three_bits (n / 2 / 2 / 2 / 2),
)

-- `b & 0x7f` of a byte.
pub bit_and-low_bits : (b : ℕ) → b < 256 → bit_and b 0x7f ≡ b % 128
bit_and-low_bits b h = bit_and-low_group b

-- Two functions that agree on the numbers below `n`, by trying them.
agree : (f g : ℕ → ℕ) → ℕ → Bool
agree f g zero = true
agree f g (suc n) = agree f g n && f n == g n

both : (x y : Bool) → (x && y) ≡ true → (x ≡ true) × (y ≡ true)
both x y e = ground arith

agree_at : (f g : ℕ → ℕ) (n : ℕ) → agree f g n ≡ true → (b : ℕ) → b < n → f b ≡ g b
unfolding agree
agree_at f g zero all b h = absurd (omega arith)
agree_at f g (suc n) all b h = elim (dec_lt b n) [
  | yes below ↦ agree_at f g n (both (agree f g n) (f n == g n) all).0 b below
  | no above ↦
      let last : b ≡ n = omega arith in
      rw last (==→eq (f n) (g n) (both (agree f g n) (f n == g n) all).1)
]

-- `b & 0x80` of a byte.
pub bit_and-top_bit : (b : ℕ) → b < 256 → bit_and b 0x80 ≡ b / 128 * 128
bit_and-top_bit b = agree_at (λ k. bit_and k 0x80) (λ k. k / 128 * 128) 256 (unfold agree in refl) b

-- `b | 0x80` of a group of seven bits.
pub bit_or-top_bit : (b : ℕ) → b < 128 → bit_or b 0x80 ≡ b + 128
bit_or-top_bit b = agree_at (λ k. bit_or k 0x80) (λ k. k + 128) 128 (unfold agree in refl) b

bit_or-double : (x g : ℕ) → bit_or (x * 2) g ≡ bit_or x (g / 2) * 2 + g % 2
bit_or-double x g =
    let e : x * 2 / 2 ≡ x = omega arith in
    let d : bit_or (x * 2 / 2) (g / 2) ≡ bit_or x (g / 2) = ap (λ (t : ℕ). bit_or t (g / 2)) e in
    omega (arith, bit_or_digit (x * 2) g, d)

bit_or-eq_zero : (a z : ℕ) → z ≡ 0 → bit_or a z ≡ a
bit_or-eq_zero a z e = rw e (bit_or-zero a)

bit_or-seven : (a g : ℕ) → g < 128 → bit_or (a * 2 * 2 * 2 * 2 * 2 * 2 * 2) g ≡ a * 128 + g
bit_or-seven a g h = omega (
  arith,
  bit_or-double (a * 2 * 2 * 2 * 2 * 2 * 2) g,
  bit_or-double (a * 2 * 2 * 2 * 2 * 2) (g / 2),
  bit_or-double (a * 2 * 2 * 2 * 2) (g / 2 / 2),
  bit_or-double (a * 2 * 2 * 2) (g / 2 / 2 / 2),
  bit_or-double (a * 2 * 2) (g / 2 / 2 / 2 / 2),
  bit_or-double (a * 2) (g / 2 / 2 / 2 / 2 / 2),
  bit_or-double a (g / 2 / 2 / 2 / 2 / 2 / 2),
  bit_or-eq_zero a (g / 2 / 2 / 2 / 2 / 2 / 2 / 2) (omega arith),
)

-- `(a << 7) | g` for a group `g` of seven bits.
pub bit_or-shifted : (a g : ℕ) → g < 128 → bit_or (a * 128) g ≡ a * 128 + g
bit_or-shifted a g h =
    let e : a * 128 ≡ a * 2 * 2 * 2 * 2 * 2 * 2 * 2 = omega arith in
    ap (λ (t : ℕ). bit_or t g) e ∙ bit_or-seven a g h

-- The lowest bit of `a | 3` is set.
pub is_odd_or : (a : ℕ) → (bit_and (bit_or a 3) 1 == 1) ≡ true
is_odd_or a =
    eq→== (bit_and (bit_or a 3) 1) 1 (omega (arith, lowest_bit (bit_or a 3), bit_or_digit a 3))
