-- ===== src/Chain/Compress/Vlq/Tests.antt =====
-- Runs of the functions of core/chain/compress.go on numbers.
use boxd.Prelude.{ℕ, ◌≤◌, ◌≡◌, refl, List, [], ◌∷◌, drop, arith}
use boxd.Prelude.Result.{ok, panic}
use boxd.Chain.Compress.Vlq.RoundTrip.{deserialize_vlq-put_vlq, serialize_size_vlq_bounds}
use boxd.Chain.Compress.Vlq.{serialize_size_vlq, put_vlq, deserialize_vlq}

abbrev zeros : List ℕ
zeros = 0 ∷ 0 ∷ 0 ∷ 0 ∷ []

put_16511 : put_vlq zeros 16511 ≡ ok (0xff ∷ 0x7f ∷ 0 ∷ 0 ∷ [], 2)
unfolding put_vlq
put_16511 = refl

put_16512 : put_vlq zeros 16512 ≡ ok (0x80 ∷ 0x80 ∷ 0x00 ∷ 0 ∷ [], 3)
unfolding put_vlq
put_16512 = refl

put_short : put_vlq (0 ∷ []) 128 ≡ panic
unfolding put_vlq
put_short = refl

size_16512 : serialize_size_vlq 16512 ≡ 3
unfolding serialize_size_vlq
size_16512 = refl

get_16512 : deserialize_vlq (0x80 ∷ 0x80 ∷ 0x00 ∷ 7 ∷ []) ≡ (16512, 3)
unfolding deserialize_vlq
get_16512 = refl

deserialize_vlq-put_vlq_example :
    (t : List ℕ) × (put_vlq zeros 16512 ≡ ok (t, serialize_size_vlq 16512))
    × (deserialize_vlq t ≡ (16512, serialize_size_vlq 16512))
    × (drop (serialize_size_vlq 16512) t ≡ drop (serialize_size_vlq 16512) zeros)
deserialize_vlq-put_vlq_example =
    deserialize_vlq-put_vlq 16512 zeros (omega arith) (unfold serialize_size_vlq in omega arith)

serialize_size_vlq_bounds_example : (1 ≤ serialize_size_vlq 128) × (serialize_size_vlq 128 ≤ 10)
serialize_size_vlq_bounds_example = serialize_size_vlq_bounds 128 (omega arith)
