-- ===== src/Chain/Compress/Amount/Tests.antt =====
-- Runs of the functions of core/chain/compress.go on values.
use boxd.Prelude.{◌≡◌, refl, arith}
use boxd.Chain.Compress.Amount.RoundTrip.{decompress-compress_tx_out_value}
use boxd.Chain.Compress.Amount.{compress_tx_out_value, decompress_tx_out_value}

one_box : compress_tx_out_value 100_000_000 ≡ 9
unfolding compress_tx_out_value
one_box = refl

odd_value : compress_tx_out_value 123_456 ≡ 1_111_101
unfolding compress_tx_out_value
odd_value = refl

back : decompress_tx_out_value 9 ≡ 100_000_000
unfolding decompress_tx_out_value
back = refl

-- A value that does not survive: the product with 90 does not fit 64 bits.
too_large :
    decompress_tx_out_value (compress_tx_out_value 18_446_744_073_709_551_615)
    ≡ 2_049_638_230_412_172_324
unfolding compress_tx_out_value decompress_tx_out_value
too_large = refl

decompress-compress_tx_out_value_example :
    decompress_tx_out_value (compress_tx_out_value 123_456) ≡ 123_456
decompress-compress_tx_out_value_example = decompress-compress_tx_out_value 123_456 (omega arith)
