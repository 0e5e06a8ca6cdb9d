-- ===== src/Util/Merkle.antt =====
-- util/merkle.go: the Merkle tree of a list of hashes, as an array with the leaves first. A slot is
-- a hash or nil.
mod Tests
pub mod Queue
pub mod Root
pub mod Levels
use boxd.Prelude.{
  ℕ, zero, suc, ◌+◌, ◌-◌, ◌*◌, ◌^◌, Option, none, some, List, ◌++◌, length, map, get_or, set,
  replicate, bit_and, ◌==◌, if◌then◌else◌,
}
use boxd.Prelude.Result.{Result, ok, panic}
use boxd.Chain.Error.{ChainError}

-- uint(math.Log2(float64(n))), and the double hash of 64 bytes.
pub record Hashing : Type 0 where
  pub log2 : ℕ → ℕ
  pub double_hash : List ℕ → List ℕ

module _ (hashing : Hashing) where
  open hashing use {log2, double_hash}

  -- 0 & -1 is 0.
  unfoldable pub calc_lowest_hierarchy_count : ℕ → ℕ
  calc_lowest_hierarchy_count n = if bit_and n (n - 1) == 0 then n else 2 ^ (log2 n + 1)

  unfoldable pub combine_hash : List ℕ → List ℕ → List ℕ
  combine_hash left right = double_hash (left ++ right)

  -- What two neighbours make.
  unfoldable pub parent : Option (List ℕ) → Option (List ℕ) → Option (List ℕ)
  unfolding combine_hash
  parent none right = none
  parent (some left) none = some (combine_hash left left)
  parent (some left) (some right) = some (combine_hash left right)

  -- for i := 0; i < arraySize-1; i += 2, with the number of rounds that are left.
  unfoldable pub merkle_loop : ℕ → ℕ → ℕ → List (Option (List ℕ)) → List (Option (List ℕ))
  unfolding parent
  merkle_loop zero i offset merkles = merkles
  merkle_loop (suc rounds) i offset merkles =
      merkle_loop rounds (i + 2) (offset + 1)
        (set merkles offset (parent (get_or merkles i none) (get_or merkles (i + 1) none)))

  -- Without a hash the size of the array is -1, and `make` panics. A loop of `leaf_size - 1` rounds
  -- ends at `array_size - 1`.
  unfoldable pub build_merkle_root : List (List ℕ) → Result ChainError (List (Option (List ℕ)))
  unfolding calc_lowest_hierarchy_count merkle_loop
  build_merkle_root hashs =
      let leaf_size = calc_lowest_hierarchy_count (length hashs) in
      if leaf_size == 0
      then panic
      else let array_size = leaf_size * 2 - 1 in
        ok (
          merkle_loop (leaf_size - 1) 0 leaf_size
            (map some hashs ++ replicate (array_size - length hashs) none))
