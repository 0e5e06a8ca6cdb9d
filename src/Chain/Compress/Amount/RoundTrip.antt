-- ===== src/Chain/Compress/Amount/RoundTrip.antt =====
-- `decompressTxOutValue` undoes `compressTxOutValue`.
use boxd.Prelude.{
  ℕ, zero, suc, ◌+◌, ◌-◌, ◌*◌, ◌/◌, ◌%◌, ◌^◌, ◌≤◌, ◌<◌, ◌≡◌, refl, subst, ◌∙◌, ◌⊎◌, inl, inr, ltb,
  lt→ltb, le→ltb, eq→==, ne→==, if◌then◌else◌, arith,
}
use boxd.Prelude.Words.{IsU64, add64, sub64, mul64}
use boxd.Chain.Compress.Amount.{strip_zeros, compress_tx_out_value, scale, decompress_tx_out_value}
use native.Mathlib.Nat.{pow-suc}
use native.Mathlib.Decide.{dec_lt, ℕ_discrete}

-- What the loop returns: a positive value that is not larger, and an exponent that is 9 or stands
-- over a last digit. Multiplying by ten `rounds` times gives back what the loop was given.
record Stripped (value exponent : ℕ) (r : ℕ × ℕ) : Type 0 where
  rounds : ℕ
  counted : exponent + rounds ≡ r.1
  restores : r.0 * 10 ^ rounds ≡ value
  positive : 0 < r.0
  smaller : r.0 ≤ value
  at_most : r.1 ≤ 9
  stops : (r.1 ≡ 9) ⊎ (0 < r.0 % 10)

no_round :
    (value exponent : ℕ)
    → 0 < value
    → exponent ≤ 9
    → (exponent ≡ 9) ⊎ (0 < value % 10)
    → Stripped value exponent (value, exponent)
no_round value exponent pos h stop = record {
  rounds = 0;
  counted = omega arith;
  restores = omega arith;
  positive = pos;
  smaller = omega arith;
  at_most = h;
  stops = stop;
}

one_round :
    (value exponent : ℕ) (r : ℕ × ℕ)
    → value % 10 ≡ 0
    → Stripped (value / 10) (exponent + 1) r
    → Stripped value exponent r
one_round value exponent r h s = record {
  rounds = suc s.rounds;
  counted = omega (arith, s.counted);
  restores = rw (pow-suc 10 s.rounds) (omega (arith, s.restores));
  positive = s.positive;
  smaller = omega (arith, s.smaller);
  at_most = s.at_most;
  stops = s.stops;
}

strip_zeros-Stripped :
    (fuel value exponent : ℕ)
    → 0 < value
    → fuel + exponent ≡ 9
    → Stripped value exponent (strip_zeros fuel value exponent)
unfolding strip_zeros
strip_zeros-Stripped zero value exponent pos e =
    no_round value exponent pos (omega arith) (inl (omega arith))
strip_zeros-Stripped (suc fuel) value exponent pos e = elim (ℕ_discrete (value % 10) 0) [
  | yes z ↦
      rw (eq→== (value % 10) 0 z, lt→ltb exponent 9 (omega arith))
        (one_round value exponent _ z
          (strip_zeros-Stripped fuel (value / 10) (exponent + 1) (omega arith) (omega arith)))
  | no nz ↦
      rw (ne→== (value % 10) 0 nz) (no_round value exponent pos (omega arith) (inr (omega arith)))
]

pow_pos : (e : ℕ) → 1 ≤ 10 ^ e
pow_pos zero = omega arith
pow_pos (suc e) = rw (pow-suc 10 e) (omega (arith, pow_pos e))

scale-pow : (e n : ℕ) → IsU64 (n * 10 ^ e) → scale e n ≡ n * 10 ^ e
unfolding scale
scale-pow zero n h = omega arith
scale-pow (suc e) n h =
    let step : n * 10 ^ suc e ≡ n * 10 * 10 ^ e = rw (pow-suc 10 e) (omega arith) in
    let small : n * 10 ≤ n * 10 * 10 ^ e = grind (arith, pow_pos e) in
    let whole : mul64 n 10 ≡ n * 10 = omega arith in
    rw (whole, step) (scale-pow e (n * 10) (omega arith))

-- The packed form of a value over its last digit, and its parts.
decompress-digit :
    (v e : ℕ)
    → 0 < v % 10
    → e < 9
    → 9 * v + e < 2 ^ 64
    → decompress_tx_out_value
        (add64 (add64 1 (mul64 10 (sub64 (add64 (mul64 9 (v / 10)) (v % 10)) 1))) e)
      ≡ scale e v
unfolding decompress_tx_out_value
decompress-digit v e d he h =
    let packed : add64 (add64 1 (mul64 10 (sub64 (add64 (mul64 9 (v / 10)) (v % 10)) 1))) e
        ≡ 1 + 10 * (9 * (v / 10) + v % 10 - 1) + e =
      omega arith in
    let expo : (1 + 10 * (9 * (v / 10) + v % 10 - 1) + e - 1) % 10 ≡ e = omega arith in
    let digits : add64 (mul64 ((1 + 10 * (9 * (v / 10) + v % 10 - 1) + e - 1) / 10 / 9) 10)
          ((1 + 10 * (9 * (v / 10) + v % 10 - 1) + e - 1) / 10 % 9 + 1)
        ≡ v =
      omega arith in
    rw (packed, expo, digits, lt→ltb e 9 he)
      (rw (ne→== (1 + 10 * (9 * (v / 10) + v % 10 - 1) + e) 0 (λ p. omega arith)))

decompress-nine :
    (v : ℕ)
    → 0 < v
    → 10 * v < 2 ^ 64
    → decompress_tx_out_value (add64 10 (mul64 10 (sub64 v 1))) ≡ scale 9 v
unfolding decompress_tx_out_value
decompress-nine v pos h =
    let packed : add64 10 (mul64 10 (sub64 v 1)) ≡ 10 * v = omega arith in
    let expo : (10 * v - 1) % 10 ≡ 9 = omega arith in
    let digits : add64 ((10 * v - 1) / 10) 1 ≡ v = omega arith in
    rw (packed, expo, digits) (rw (ne→== (10 * v) 0 (λ p. omega arith)))

pow_large : (k : ℕ) → k + 1 ≤ 10 ^ k
pow_large zero = omega arith
pow_large (suc k) = rw (pow-suc 10 k) (omega (arith, pow_large k))

restored_large : (v k : ℕ) → 0 < v → v + k ≤ v * 10 ^ k
restored_large v k pos = let p : v + k ≤ v * (k + 1) = grind arith in grind (arith, p, pow_large k)

decompress-Stripped :
    (value : ℕ) (r : ℕ × ℕ)
    → 9 * value < 2 ^ 64
    → Stripped value 0 r
    → decompress_tx_out_value (
        if ltb r.1 9
        then add64 (add64 1 (mul64 10 (sub64 (add64 (mul64 9 (r.0 / 10)) (r.0 % 10)) 1))) r.1
        else add64 10 (mul64 10 (sub64 r.0 1)))
      ≡ value
decompress-Stripped value r h s =
    let count : s.rounds ≡ r.1 = omega (arith, s.counted) in
    let back : r.0 * 10 ^ r.1 ≡ value = rw (← count) s.restores in
    elim (dec_lt r.1 9) [
      | yes few ↦
          let digit : 0 < r.0 % 10 = omega (arith, s.stops) in
          let fits : 9 * r.0 + r.1 < 2 ^ 64 =
            omega (arith, restored_large r.0 r.1 s.positive, back) in
          rw (lt→ltb r.1 9 few, decompress-digit r.0 r.1 digit few fits)
            (scale-pow r.1 r.0 (omega arith) ∙ back)
      | no many ↦
          let nine : r.1 ≡ 9 = omega (arith, s.at_most) in
          let back_nine : r.0 * 10 ^ 9 ≡ value =
            subst (λ (k : ℕ). r.0 * 10 ^ k ≡ value) nine back in
          rw (le→ltb r.1 9 (omega arith), decompress-nine r.0 s.positive (omega arith))
            (scale-pow 9 r.0 (omega arith) ∙ back_nine)
    ]

-- Up to (2 ^ 64 - 1) / 9, some 20 billion boxes, a compressed value decompresses to itself.
pub decompress-compress_tx_out_value :
    (value : ℕ) → 9 * value < 2 ^ 64 → decompress_tx_out_value (compress_tx_out_value value) ≡ value
unfolding compress_tx_out_value
decompress-compress_tx_out_value zero h = unfold decompress_tx_out_value in refl
decompress-compress_tx_out_value (suc v) h =
    rw (ne→== (suc v) 0 (λ p. omega arith))
      (decompress-Stripped (suc v) _ h (strip_zeros-Stripped 9 (suc v) 0 (omega arith) refl))
