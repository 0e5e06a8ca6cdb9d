-- ===== src/Util/Merkle/Tests.antt =====
-- The tree of three hashes, with a stand-in for the double hash.
use boxd.Prelude.{
  ℕ, ◌-◌, ◌*◌, ◌^◌, ◌≤◌, ◌<◌, ◌≡◌, refl, none, some, List, [], ◌∷◌, length, get_or, arith,
}
use boxd.Prelude.Result.{ok}
use boxd.Util.Merkle.{Hashing, build_merkle_root}
use boxd.Util.Merkle.Levels.{levels}
use boxd.Util.Merkle.Queue.{Slot}
use boxd.Util.Merkle.Root.{build_merkle_root-levels, build_merkle_root-repeated}

-- The logarithm at 2 and 3; the hash keeps its input.
abbrev stand_in : Hashing
stand_in = record { log2 = λ n. 1; double_hash = λ bytes. 0 ∷ bytes }

abbrev three : List (List ℕ)
three = (1 ∷ []) ∷ (2 ∷ []) ∷ (3 ∷ []) ∷ []

build_merkle_root-levels_example :
    (k : ℕ) × (merkles : List Slot) × (root : List ℕ) × (length three ≤ 2 ^ k)
    × (2 ^ k < 2 * length three)
    × (build_merkle_root stand_in three ≡ ok merkles)
    × (get_or merkles (length merkles - 1) none ≡ some root)
    × (levels stand_in k three ≡ root ∷ [])
build_merkle_root-levels_example =
    build_merkle_root-levels stand_in three (omega arith) (omega arith) (omega arith)

build_merkle_root-repeated_example :
    (short long : List Slot) × (build_merkle_root stand_in ((1 ∷ []) ∷ (2 ∷ []) ∷ (3 ∷ []) ∷ [])
      ≡ ok short)
    × (build_merkle_root stand_in ((1 ∷ []) ∷ (2 ∷ []) ∷ (3 ∷ []) ∷ (3 ∷ []) ∷ []) ≡ ok long)
    × (get_or short (length short - 1) none ≡ get_or long (length long - 1) none)
build_merkle_root-repeated_example =
    build_merkle_root-repeated stand_in (1 ∷ []) (2 ∷ []) (3 ∷ []) refl
