-- ===== src/Chain/Compress/Vlq/Reverse.antt =====
-- The second loop of `putVLQ` turns the front of a slice round, whatever stands there.
use boxd.Prelude.{
  ℕ, zero, suc, ◌+◌, ◌-◌, ◌≤◌, ◌≡◌, refl, ap, sym, ◌∙◌, List, [], ◌∷◌, ◌++◌, length, length-append,
  set-append, get_or-append, reverse, append_assoc, lt→ltb, le→ltb, arith,
}
use boxd.Chain.Compress.Vlq.{swap, reverse_loop}
use mathlib.Core.List.{reverse-append, reverse-cons}

-- A list is empty, a single element, or has two ends.
data Ends (m : List ℕ) : Type 0 where
  empty : m ≡ [] → Ends m
  single : (x : ℕ) → m ≡ x ∷ [] → Ends m
  two : (x : ℕ) (mid : List ℕ) (y : ℕ) → m ≡ x ∷ (mid ++ (y ∷ [])) → Ends m

Ends-cons : (x : ℕ) (m : List ℕ) → Ends m → Ends (x ∷ m)
Ends-cons x m (empty e) = single x (ap (◌∷◌ x) e)
Ends-cons x m (single y e) = two x [] y (ap (◌∷◌ x) e)
Ends-cons x m (two y mid z e) = two x (y ∷ mid) z (ap (◌∷◌ x) e)

ends : (m : List ℕ) → Ends m
ends [] = empty refl
ends (x ∷ m) = Ends-cons x m (ends m)

swap-ends :
    (a mid b : List ℕ) (x y i j : ℕ)
    → i ≡ length a
    → j ≡ length a + 1 + length mid
    → swap (a ++ (x ∷ (mid ++ (y ∷ b)))) i j ≡ a ++ (y ∷ (mid ++ (x ∷ b)))
unfolding swap
swap-ends a mid b x y i j ei ej =
    rw (get_or-append a x (mid ++ (y ∷ b)) i 0 ei, at_j x, get_or-append _ y b j 0 (far x))
      (rw (← at_j x, set-append a x y (mid ++ (y ∷ b)) i ei, at_j y, set-append _ y x b j (far y))
        (sym (regroup y x)))
  where
    regroup : (u v : ℕ) → a ++ (u ∷ (mid ++ (v ∷ b))) ≡ (a ++ (u ∷ mid)) ++ (v ∷ b)
    regroup u v = sym (append_assoc a (u ∷ mid) (v ∷ b))

    at_j : (u : ℕ) → a ++ (u ∷ (mid ++ (y ∷ b))) ≡ (a ++ (u ∷ mid)) ++ (y ∷ b)
    at_j u = regroup u y

    far : (u : ℕ) → j ≡ length (a ++ (u ∷ mid))
    far u = omega (arith, length-append a (u ∷ mid))

reverse-ends :
    (x y : ℕ) (mid b : List ℕ) → reverse (x ∷ (mid ++ (y ∷ []))) ++ b ≡ y ∷ (reverse mid ++ (x ∷ b))
reverse-ends x y mid b =
    rw (reverse-cons x (mid ++ (y ∷ [])), reverse-append mid (y ∷ []))
      (ap (◌∷◌ y) (append_assoc (reverse mid) (x ∷ []) b))

rounds :
    (fuel i j : ℕ) (a m b t : List ℕ)
    → Ends m
    → t ≡ a ++ (m ++ b)
    → i ≡ length a
    → j ≡ length a + length m - 1
    → length m ≤ fuel + 1
    → reverse_loop fuel i j t ≡ a ++ (reverse m ++ b)
unfolding reverse_loop
rounds zero i j a m b t (empty e) et ei ej h = rw (et, e)
rounds (suc fuel) i j a m b t (empty e) et ei ej h =
    rw (le→ltb i j (omega (arith, ap length e)), et, e)
rounds zero i j a m b t (single x e) et ei ej h = rw (et, e)
rounds (suc fuel) i j a m b t (single x e) et ei ej h =
    rw (le→ltb i j (omega (arith, ap length e)), et, e)
rounds zero i j a m b t (two x mid y e) et ei ej h =
    absurd (omega (arith, ap length e, length-append mid (y ∷ [])))
rounds (suc fuel) i j a m b t (two x mid y e) et ei ej h =
    rw (lt→ltb i j (omega (arith, sizes)), e, reverse-ends x y mid b)
      (rounds fuel (i + 1) (j - 1) (a ++ (y ∷ [])) mid (x ∷ b) (swap t i j) (ends mid) swapped
          (omega (arith, length-append a (y ∷ []))) (omega (arith, sizes, length-append a (y ∷ [])))
          (omega (arith, sizes))
        ∙ append_assoc a (y ∷ []) (reverse mid ++ (x ∷ b)))
  where
    sizes : length m ≡ length mid + 2
    sizes = omega (arith, ap length e, length-append mid (y ∷ []))

    shape : t ≡ a ++ (x ∷ (mid ++ (y ∷ b)))
    shape = rw (et, e) (ap (λ z. a ++ (x ∷ z)) (append_assoc mid (y ∷ []) b))

    swapped : swap t i j ≡ (a ++ (y ∷ [])) ++ (mid ++ (x ∷ b))
    swapped = rw shape (
        swap-ends a mid b x y i j ei (omega (arith, sizes))
        ∙ sym (append_assoc a (y ∷ []) (mid ++ (x ∷ b))))

-- From `i` to `j` the loop reverses; what stands before and behind stays.
pub reverse_loop-reverse :
    (fuel i j : ℕ) (a m b t : List ℕ)
    → t ≡ a ++ (m ++ b)
    → i ≡ length a
    → j ≡ length a + length m - 1
    → length m ≤ fuel + 1
    → reverse_loop fuel i j t ≡ a ++ (reverse m ++ b)
reverse_loop-reverse fuel i j a m b t = rounds fuel i j a m b t (ends m)
