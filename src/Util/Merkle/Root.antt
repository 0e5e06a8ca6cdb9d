-- ===== src/Util/Merkle/Root.antt =====
-- The last slot of the array is the root of the tree that is built level by level.
use native.Mathlib.Decide.{dec_lt}
use native.Mathlib.Nat.{pow-suc}
use boxd.Prelude.{
  ℕ, zero, suc, ◌+◌, ◌-◌, ◌*◌, ◌/◌, ◌%◌, ◌^◌, ◌≤◌, ◌<◌, ◌≡◌, ◌≢◌, false, refl, sym, ap, ap₂, ◌∙◌,
  inl, inr, none, some, List, [], ◌∷◌, ◌++◌, map, append_assoc, length, length-append,
  length-replicate, get_or, get_or-append, replicate, bit_and, ◌==◌, ==→eq, eq→==, ne→==, arith,
  Bool-cases,
}
use boxd.Prelude.Bits.{bit_and_digit}
use boxd.Prelude.Result.{ok}
use boxd.Util.Merkle.{
  Hashing, calc_lowest_hierarchy_count, merkle_loop, parent, combine_hash, build_merkle_root,
}
use boxd.Util.Merkle.Levels.{levels, pow_pos, slots_levels-levels, queue_run-levels}
use boxd.Util.Merkle.Queue.{Slot, merkle_loop-queue_run}

bit_and_self : (fuel a : ℕ) → a ≤ fuel → bit_and a a ≡ a
bit_and_self zero a h = let z : a ≡ 0 = omega arith in ap (λ (t : ℕ). bit_and t t) z ∙ sym z
bit_and_self (suc fuel) a h = elim (dec_lt 0 a) [
  | yes p ↦ omega (arith, bit_and_digit a a, bit_and_self fuel (a / 2) (omega arith))
  | no z ↦ let z : a ≡ 0 = omega arith in ap (λ (t : ℕ). bit_and t t) z ∙ sym z
]

-- A number that shares no bit with the one below it is a power of two.
power_of_two : (fuel n : ℕ) → n ≤ fuel → 1 ≤ n → bit_and n (n - 1) ≡ 0 → (k : ℕ) × (n ≡ 2 ^ k)
power_of_two zero n h p e = absurd (omega arith)
power_of_two (suc fuel) n h p e = elim (dec_lt 1 n) [
  | no one ↦ (0, omega arith)
  | yes big ↦ elim (dec_lt 0 (n % 2)) [
    | yes odd ↦
        let same : (n - 1) / 2 ≡ n / 2 = omega arith in
        let low : bit_and (n / 2) ((n - 1) / 2) ≡ bit_and (n / 2) (n / 2) =
          ap (λ (t : ℕ). bit_and (n / 2) t) same in
        absurd (
          omega
            (arith, bit_and_digit n (n - 1), low, bit_and_self (n / 2) (n / 2) (omega arith), e))
    | no even ↦
        let below : (n - 1) / 2 ≡ n / 2 - 1 = omega arith in
        let low : bit_and (n / 2) ((n - 1) / 2) ≡ bit_and (n / 2) (n / 2 - 1) =
          ap (λ (t : ℕ). bit_and (n / 2) t) below in
        let (k, is_power) =
          power_of_two fuel (n / 2) (omega arith) (omega arith)
            (omega (arith, bit_and_digit n (n - 1), low, e)) in
        (suc k, omega (arith, is_power, pow-suc 2 k))
  ]
]

-- And a power of two shares no bit with the number below it.
power_of_two-bit_and : (k : ℕ) → bit_and (2 ^ k) (2 ^ k - 1) ≡ 0
power_of_two-bit_and zero = refl
power_of_two-bit_and (suc k) =
    let positive : 1 ≤ 2 ^ k = pow_pos k in
    let half : 2 ^ suc k / 2 ≡ 2 ^ k = omega (arith, pow-suc 2 k) in
    let below : (2 ^ suc k - 1) / 2 ≡ 2 ^ k - 1 = omega (arith, pow-suc 2 k, positive) in
    let low : bit_and (2 ^ suc k / 2) ((2 ^ suc k - 1) / 2) ≡ bit_and (2 ^ k) (2 ^ k - 1) =
      ap₂ bit_and half below in
    omega
      (arith, bit_and_digit (2 ^ suc k) (2 ^ suc k - 1), low, power_of_two-bit_and k, pow-suc 2 k)

replicate-add :
    (m n : ℕ) → ◌≡◌ {A = List Slot} (replicate (m + n) none) (replicate m none ++ replicate n none)
replicate-add zero n = ap (λ (k : ℕ). replicate k none) (omega arith)
replicate-add (suc m) n =
    ap (λ (k : ℕ). replicate k none) (suc_add m n)
    ∙ ap (λ (l : List Slot). none ∷ l) (replicate-add m n)
  where
    suc_add : (a b : ℕ) → suc a + b ≡ suc (a + b)
    suc_add a b = omega arith

nil_slots : (n : ℕ) → length {A = Slot} (replicate n none) ≡ n
nil_slots n = length-replicate n none

length-slots : (hs : List (List ℕ)) → length (map some hs) ≡ length hs
length-slots [] = refl
length-slots (a ∷ hs) = omega (arith, length-slots hs)

module _ (hashing : Hashing) where
  open hashing use {log2}

  -- The number of leaves is the least power of two that is not below the number of hashes.
  calc_lowest_hierarchy_count-power :
      (n : ℕ)
      → 1 ≤ n
      → 2 ^ log2 n ≤ n
      → n < 2 ^ (log2 n + 1)
      → (k : ℕ) × (calc_lowest_hierarchy_count hashing n ≡ 2 ^ k) × (n ≤ 2 ^ k) × (2 ^ k < 2 * n)
  unfolding calc_lowest_hierarchy_count
  calc_lowest_hierarchy_count-power n p low high = elim (Bool-cases (bit_and n (n - 1) == 0)) [
    | inl e ↦
        let (k, is_power) = power_of_two n n (omega arith) p (==→eq (bit_and n (n - 1)) 0 e) in
        (k, rw e is_power, omega (arith, is_power), omega (arith, is_power))
    | inr e ↦ (
      log2 n + 1,
      rw e refl,
      omega (arith, high),
      omega (arith, low, double (log2 n), no_power e),
    )
  ]
    where
      no_power : (bit_and n (n - 1) == 0) ≡ false → n ≢ 2 ^ log2 n
      no_power e is_power =
          let shares : bit_and n (n - 1) ≡ 0 =
            ap (λ (t : ℕ). bit_and t (t - 1)) is_power ∙ power_of_two-bit_and (log2 n) in
          cc (e, eq→== (bit_and n (n - 1)) 0 shares)

      double : (j : ℕ) → 2 ^ (j + 1) ≡ 2 ^ j * 2
      double j = ap (λ (t : ℕ). 2 ^ t) (add_one j) ∙ pow-suc 2 j
        where
          add_one : (t : ℕ) → t + 1 ≡ suc t
          add_one t = omega arith

  merkle_loop-levels :
      (hs : List (List ℕ)) (k : ℕ)
      → 1 ≤ length hs
      → length hs ≤ 2 ^ k
      → (root : List ℕ) × (past : List Slot) × (levels hashing k hs ≡ root ∷ [])
        × (merkle_loop hashing
              (2 ^ k - 1)
              0
              (2 ^ k)
              (map some hs ++ replicate (2 ^ k * 2 - 1 - length hs) none)
            ≡ past ++ (some root ∷ []))
  merkle_loop-levels hs k p fits =
      let spare = 2 ^ k - length hs in
      let queue : List Slot = map some hs ++ replicate spare none in
      let size : length queue ≡ 2 ^ k = omega (
        arith,
        length-append (map some hs) (replicate spare none),
        length-slots hs,
        nil_slots spare,
      ) in
      let array : map some hs ++ replicate (2 ^ k * 2 - 1 - length hs) none
          ≡ queue ++ replicate (2 ^ k - 1) none =
        ap (λ (j : ℕ). map some hs ++ replicate j none) (omega arith)
        ∙ ap (λ (l : List Slot). map some hs ++ l) (replicate-add spare (2 ^ k - 1))
        ∙ sym (append_assoc (map some hs) (replicate spare none) (replicate (2 ^ k - 1) none)) in
      let (past, e) =
        merkle_loop-queue_run hashing (2 ^ k - 1) [] queue 0 (2 ^ k) refl (omega (arith, size))
          (omega (arith, size)) in
      let (root, top, q) = slots_levels-levels hashing k hs spare p (omega arith) in
      (
        root,
        past,
        top,
        ap (merkle_loop hashing (2 ^ k - 1) 0 (2 ^ k)) array
            ∙ e
            ∙ ap (λ (l : List Slot). past ++ l) (queue_run-levels hashing k queue size ∙ q),
      )

  build_merkle_root-leaves :
      (hs : List (List ℕ)) (k : ℕ)
      → 1 ≤ length hs
      → length hs ≤ 2 ^ k
      → calc_lowest_hierarchy_count hashing (length hs) ≡ 2 ^ k
      → build_merkle_root hashing hs
        ≡ ok (
            merkle_loop hashing
              (2 ^ k - 1)
              0
              (2 ^ k)
              (map some hs ++ replicate (2 ^ k * 2 - 1 - length hs) none))
  unfolding build_merkle_root
  build_merkle_root-leaves hs k p fits e = rw e (rw (ne→== (2 ^ k) 0 (λ z. omega arith)) refl)

  -- For one hash or more, and a logarithm that is the rounded one at their number: the array is
  -- built, and its last slot is the one hash that is left on the top level, when each level combines
  -- neighbours and a last one without a neighbour with itself; the number of levels is the least
  -- whose leaves are enough for the hashes.
  pub build_merkle_root-levels :
      (hs : List (List ℕ))
      → 1 ≤ length hs
      → 2 ^ log2 (length hs) ≤ length hs
      → length hs < 2 ^ (log2 (length hs) + 1)
      → (k : ℕ) × (merkles : List Slot) × (root : List ℕ) × (length hs ≤ 2 ^ k)
        × (2 ^ k < 2 * length hs)
        × (build_merkle_root hashing hs ≡ ok merkles)
        × (get_or merkles (length merkles - 1) none ≡ some root)
        × (levels hashing k hs ≡ root ∷ [])
  build_merkle_root-levels hs p low high =
      let (k, leaves, fits, least) = calc_lowest_hierarchy_count-power (length hs) p low high in
      let (root, past, top, e) = merkle_loop-levels hs k p fits in
      (
        k,
        past ++ (some root ∷ []),
        root,
        fits,
        least,
        build_merkle_root-leaves hs k p fits leaves ∙ ap ok e,
        get_or-append past (some root) [] (length (past ++ (some root ∷ [])) - 1) none
            (omega (arith, length-append past (some root ∷ []))),
        top,
      )

  -- Three hashes, and the same with the last one twice, have one root; the rounded logarithm of 3
  -- is 1.
  pub build_merkle_root-repeated :
      (a b c : List ℕ)
      → log2 3 ≡ 1
      → (short long : List Slot) × (build_merkle_root hashing (a ∷ b ∷ c ∷ []) ≡ ok short)
        × (build_merkle_root hashing (a ∷ b ∷ c ∷ c ∷ []) ≡ ok long)
        × (get_or short (length short - 1) none ≡ get_or long (length long - 1) none)
  unfolding build_merkle_root calc_lowest_hierarchy_count merkle_loop parent
  build_merkle_root-repeated a b c e = (
    some a
        ∷ some b
        ∷ some c
        ∷ none
        ∷ some (pair a b)
        ∷ some (pair c c)
        ∷ some (pair (pair a b) (pair c c))
        ∷ [],
    some a
        ∷ some b
        ∷ some c
        ∷ some c
        ∷ some (pair a b)
        ∷ some (pair c c)
        ∷ some (pair (pair a b) (pair c c))
        ∷ [],
    rw e refl,
    refl,
    refl,
  )
    where
      pair : List ℕ → List ℕ → List ℕ
      pair = combine_hash hashing
