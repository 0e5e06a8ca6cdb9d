-- ===== src/Util/Merkle/Levels.antt =====
-- The tree level by level, and that the array holds its root at its end.
use boxd.Prelude.{
  ℕ, zero, suc, ◌+◌, ◌-◌, ◌^◌, ◌≤◌, ◌≡◌, refl, sym, ap, ◌∙◌, none, some, List, [], ◌∷◌, ◌++◌, map,
  append-nil, append_assoc, length, length-append, replicate, arith,
}
use native.Mathlib.Nat.{pow-suc}
use boxd.Util.Merkle.{Hashing, combine_hash, parent}
use boxd.Util.Merkle.Queue.{Slot, queue_run}

pub pow_pos : (j : ℕ) → 1 ≤ 2 ^ j
pow_pos zero = omega arith
pow_pos (suc j) = omega (arith, pow-suc 2 j, pow_pos j)

module _ (hashing : Hashing) where
  -- The level above: each two neighbours are combined, a last one without a neighbour with itself.
  abbrev pub level : List (List ℕ) → List (List ℕ)
  level [] = []
  level (a ∷ []) = combine_hash hashing a a ∷ []
  level (a ∷ b ∷ hs) = combine_hash hashing a b ∷ level hs

  abbrev pub levels : ℕ → List (List ℕ) → List (List ℕ)
  levels zero hs = hs
  levels (suc k) hs = levels k (level hs)

  -- The level above, on slots in pairs.
  abbrev slots_level : List Slot → List Slot
  slots_level [] = []
  slots_level (x ∷ []) = []
  slots_level (x ∷ y ∷ q) = parent hashing x y ∷ slots_level q

  queue_run-level :
      (m : ℕ) (xs rest : List Slot)
      → length xs ≡ m + m
      → queue_run hashing m (xs ++ rest) ≡ rest ++ slots_level xs
  queue_run-level zero [] rest h = sym (append-nil rest)
  queue_run-level zero (x ∷ xs) rest h = absurd (omega arith)
  queue_run-level (suc m) [] rest h = absurd (omega arith)
  queue_run-level (suc m) (x ∷ []) rest h = absurd (omega arith)
  queue_run-level (suc m) (x ∷ y ∷ xs) rest h =
      let p = parent hashing x y in
      ap (queue_run hashing m) (append_assoc xs rest (p ∷ []))
      ∙ queue_run-level m xs (rest ++ (p ∷ [])) (omega arith)
      ∙ append_assoc rest (p ∷ []) (slots_level xs)

  queue_run-add :
      (m n : ℕ) (q : List Slot)
      → length q ≡ suc (m + n)
      → queue_run hashing (m + n) q ≡ queue_run hashing n (queue_run hashing m q)
  queue_run-add zero n q h = ap (λ k. queue_run hashing k q) (zero_add n)
    where
      zero_add : (a : ℕ) → 0 + a ≡ a
      zero_add a = omega arith
  queue_run-add (suc m) n [] h = absurd (omega arith)
  queue_run-add (suc m) n (x ∷ []) h = absurd (omega arith)
  queue_run-add (suc m) n (x ∷ y ∷ q) h =
      ap (λ k. queue_run hashing k (x ∷ y ∷ q)) (suc_add m n)
      ∙ queue_run-add m n (q ++ (parent hashing x y ∷ []))
          (omega (arith, h, length-append q (parent hashing x y ∷ [])))
    where
      suc_add : (a b : ℕ) → suc a + b ≡ suc (a + b)
      suc_add a b = omega arith

  abbrev slots_levels : ℕ → List Slot → List Slot
  slots_levels zero q = q
  slots_levels (suc k) q = slots_levels k (slots_level q)

  length-slots_level : (m : ℕ) (q : List Slot) → length q ≡ m + m → length (slots_level q) ≡ m
  length-slots_level zero [] h = refl
  length-slots_level zero (x ∷ q) h = absurd (omega arith)
  length-slots_level (suc m) [] h = absurd (omega arith)
  length-slots_level (suc m) (x ∷ []) h = absurd (omega arith)
  length-slots_level (suc m) (x ∷ y ∷ q) h = omega (arith, length-slots_level m q (omega arith))

  -- A queue of 2 ^ k slots runs through the k levels above it.
  pub queue_run-levels :
      (k : ℕ) (q : List Slot)
      → length q ≡ 2 ^ k
      → queue_run hashing (2 ^ k - 1) q ≡ slots_levels k q
  queue_run-levels zero q h = refl
  queue_run-levels (suc k) q h =
      let double : 2 ^ suc k ≡ 2 ^ k + 2 ^ k = omega (arith, pow-suc 2 k) in
      let positive : 1 ≤ 2 ^ k = pow_pos k in
      let rounds : 2 ^ suc k - 1 ≡ 2 ^ k + (2 ^ k - 1) = omega (arith, double, positive) in
      let one : queue_run hashing (2 ^ k) q ≡ slots_level q =
        ap (queue_run hashing (2 ^ k)) (sym (append-nil q))
        ∙ queue_run-level (2 ^ k) q [] (h ∙ double) in
      ap (λ n. queue_run hashing n q) rounds
      ∙ queue_run-add (2 ^ k) (2 ^ k - 1) q (omega (arith, h, double, positive))
      ∙ ap (queue_run hashing (2 ^ k - 1)) one
      ∙ queue_run-levels k (slots_level q) (length-slots_level (2 ^ k) q (h ∙ double))

  slots_level-none : (m n : ℕ) → n ≡ m + m → slots_level (replicate n none) ≡ replicate m none
  unfolding parent
  slots_level-none zero zero h = refl
  slots_level-none (suc m) zero h = absurd (omega arith)
  slots_level-none zero (suc n) h = absurd (omega arith)
  slots_level-none (suc m) (suc zero) h = absurd (omega arith)
  slots_level-none (suc m) (suc (suc n)) h =
      ap (λ (l : List Slot). none ∷ l) (slots_level-none m n (omega arith))

  -- Slots of hashes with nil slots behind them.
  slots_level-level :
      (hs : List (List ℕ)) (n m : ℕ)
      → length hs + n ≡ m + m
      → slots_level (map some hs ++ replicate n none)
        ≡ map some (level hs) ++ replicate (m - length (level hs)) none
  unfolding parent
  slots_level-level [] n m h =
      slots_level-none m n (omega arith) ∙ ap (λ (j : ℕ). replicate j none) (omega arith)
  slots_level-level (a ∷ []) zero m h = absurd (omega arith)
  slots_level-level (a ∷ []) (suc n) m h =
      ap (λ (l : List Slot). some (combine_hash hashing a a) ∷ l)
        (slots_level-none (m - 1) n (omega arith))
  slots_level-level (a ∷ b ∷ hs) n m h =
      ap (λ (l : List Slot). some (combine_hash hashing a b) ∷ l)
        (slots_level-level hs n (m - 1) (omega arith)
          ∙ ap (λ (j : ℕ). map some (level hs) ++ replicate j none) (omega arith))

  length-level :
      (hs : List (List ℕ))
      → (length hs ≤ length (level hs) + length (level hs))
        × (length (level hs) + length (level hs) ≤ length hs + 1)
  length-level [] = (omega arith, omega arith)
  length-level (a ∷ []) = (omega arith, omega arith)
  length-level (a ∷ b ∷ hs) =
      let rest = length-level hs in (omega (arith, rest.0), omega (arith, rest.1))

  -- The k levels above at most 2 ^ k hashes end at one hash.
  pub slots_levels-levels :
      (k : ℕ) (hs : List (List ℕ)) (n : ℕ)
      → 1 ≤ length hs
      → length hs + n ≡ 2 ^ k
      → (root : List ℕ) × (levels k hs ≡ root ∷ [])
        × (slots_levels k (map some hs ++ replicate n none) ≡ some root ∷ [])
  slots_levels-levels zero [] n some_hash h = absurd (omega arith)
  slots_levels-levels zero (a ∷ []) zero some_hash h = (a, refl, refl)
  slots_levels-levels zero (a ∷ []) (suc n) some_hash h = absurd (omega arith)
  slots_levels-levels zero (a ∷ b ∷ hs) n some_hash h = absurd (omega arith)
  slots_levels-levels (suc k) hs n some_hash h =
      let double : 2 ^ suc k ≡ 2 ^ k + 2 ^ k = omega (arith, pow-suc 2 k) in
      let (more, fewer) = length-level hs in
      let (root, e, q) =
        slots_levels-levels k (level hs) (2 ^ k - length (level hs)) (omega arith)
          (omega (arith, h, double, fewer)) in
      (root, e, ap (slots_levels k) (slots_level-level hs n (2 ^ k) (h ∙ double)) ∙ q)
