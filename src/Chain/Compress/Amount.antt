-- ===== src/Chain/Compress/Amount.antt =====
-- core/chain/compress.go: the compressed value of an output, in uint64 arithmetic.
pub mod RoundTrip
mod Tests
use boxd.Prelude.{ℕ, zero, suc, ◌+◌, ◌-◌, ◌/◌, ◌%◌, ◌&&◌, ltb, ◌==◌, if◌then◌else◌}
use boxd.Prelude.Words.{add64, sub64, mul64}

-- for value%10 == 0 && exponent < 9 { value /= 10; exponent++ }, with at most `fuel` rounds.
pub strip_zeros : ℕ → ℕ → ℕ → ℕ × ℕ
strip_zeros zero value exponent = (value, exponent)
strip_zeros (suc fuel) value exponent =
    let rest = strip_zeros fuel (value / 10) (exponent + 1) in
    if value % 10 == 0 && ltb exponent 9 then rest else (value, exponent)

-- The exponent counts the rounds and stops the loop at 9, so nine rounds are enough.
unfoldable pub compress_tx_out_value : ℕ → ℕ
unfolding strip_zeros
compress_tx_out_value value =
    if value == 0
    then 0
    else let (value', exponent) = strip_zeros 9 value 0 in
      if ltb exponent 9
      then add64 (add64 1 (mul64 10 (sub64 (add64 (mul64 9 (value' / 10)) (value' % 10)) 1)))
          exponent
      else add64 10 (mul64 10 (sub64 value' 1))

-- for ; exponent > 0; exponent-- { n *= 10 }
pub scale : ℕ → ℕ → ℕ
scale zero n = n
scale (suc exponent) n = scale exponent (mul64 n 10)

unfoldable pub decompress_tx_out_value : ℕ → ℕ
unfolding scale
decompress_tx_out_value value =
    if value == 0
    then 0
    else let exponent = (value - 1) % 10 in
      let value' = (value - 1) / 10 in
      scale exponent
        (if ltb exponent 9 then add64 (mul64 (value' / 9) 10) (value' % 9 + 1) else add64 value' 1)
