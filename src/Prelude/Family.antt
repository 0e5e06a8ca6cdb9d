-- ===== src/Prelude/Family.antt =====
-- Families indexed by a thread: the update at one index, and sums over the first `n`.
use Prim.Native.Nat.{ℕ, zero, suc, ◌+◌, ◌≤◌, ◌<◌}
use mathlib.Core.Path.{◌≡◌, refl, ap, ap₂, subst}
use native.Mathlib.Decide.{dec_lt}
use mathlib.Core.Logic.{inl, inr}
use native.Mathlib.Omega.{arith}
use boxd.Prelude.Tests.{◌==◌, if◌then◌else◌, eq→==, ne→==, ==→eq, Bool-cases}

abbrev pub update {ℓ} : {A : Type ℓ} → (ℕ → A) → ℕ → A → ℕ → A
update f i a j = if i == j then a else f j

module _ {ℓ} {A : Type ℓ} where
  pub update_same : (f : ℕ → A) (i : ℕ) (a : A) → update f i a i ≡ a
  update_same f i a = rw (eq→== i i refl) refl

  pub update_other : (f : ℕ → A) (i j : ℕ) (a : A) → (i ≡ j → ⊥) → update f i a j ≡ f j
  update_other f i j a h = rw (ne→== i j h) refl

  -- What holds of the new value and of all the old ones holds of each.
  pub update_all {κ} :
      (P : ℕ → A → Type κ) (f : ℕ → A) (i : ℕ) (a : A)
      → P i a
      → ((j : ℕ) → P j (f j))
      → (j : ℕ) → P j (update f i a j)
  update_all P f i a new old j = elim (Bool-cases (i == j)) [
    | inl e ↦ rw e (subst (λ k. P k a) (==→eq i j e) new)
    | inr e ↦ rw e (old j)
  ]

  pub sum_of : (A → ℕ) → ℕ → (ℕ → A) → ℕ
  sum_of w zero f = 0
  sum_of w (suc n) f = sum_of w n f + w (f n)

  sum_of-above :
      (w : A → ℕ) (n : ℕ) (f : ℕ → A) (i : ℕ) (a : A)
      → n ≤ i
      → sum_of w n (update f i a) ≡ sum_of w n f
  unfolding sum_of
  sum_of-above w zero f i a h = refl
  sum_of-above w (suc n) f i a h =
      let last : w (update f i a n) ≡ w (f n) = ap w (update_other f i n a (λ e. omega arith)) in
      ap₂ ◌+◌ (sum_of-above w n f i a (omega arith)) last

  pub sum_of-update :
      (w : A → ℕ) (n : ℕ) (f : ℕ → A) (i : ℕ) (a : A)
      → i < n
      → sum_of w n (update f i a) + w (f i) ≡ sum_of w n f + w a
  unfolding sum_of
  sum_of-update w zero f i a h = absurd (omega arith)
  sum_of-update w (suc n) f i a h = elim (dec_lt i n) [
    | yes below ↦
        let last : w (update f i a n) ≡ w (f n) = ap w (update_other f i n a (λ e. omega arith)) in
        omega (arith, last, sum_of-update w n f i a below)
    | no above ↦
        let at : i ≡ n = omega arith in
        let last : w (update f i a n) ≡ w a = rw (eq→== i n at) refl in
        let old : w (f i) ≡ w (f n) = ap (λ k. w (f k)) at in
        omega (arith, last, old, sum_of-above w n f i a (omega arith))
  ]

  -- A member of the sum is no more than the sum.
  pub le-sum_of : (w : A → ℕ) (n : ℕ) (f : ℕ → A) (i : ℕ) → i < n → w (f i) ≤ sum_of w n f
  unfolding sum_of
  le-sum_of w zero f i h = absurd (omega arith)
  le-sum_of w (suc n) f i h = elim (dec_lt i n) [
    | yes below ↦ omega (arith, le-sum_of w n f i below)
    | no above ↦
        let at : i ≡ n = omega arith in
        let old : w (f i) ≡ w (f n) = ap (λ k. w (f k)) at in omega (arith, old)
  ]

  -- A positive sum has a positive member.
  pub sum_of-positive :
      (w : A → ℕ) (n : ℕ) (f : ℕ → A) → 1 ≤ sum_of w n f → (i : ℕ) × (i < n) × (1 ≤ w (f i))
  unfolding sum_of
  sum_of-positive w zero f h = absurd (omega arith)
  sum_of-positive w (suc n) f h = elim (dec_lt 0 (w (f n))) [
    | yes last ↦ (n, omega arith, last)
    | no none_here ↦
        let (i, below, here) = sum_of-positive w n f (omega arith) in (i, omega arith, here)
  ]

  pub sum_of-zero : (w : A → ℕ) (n : ℕ) (f : ℕ → A) → ((i : ℕ) → w (f i) ≡ 0) → sum_of w n f ≡ 0
  unfolding sum_of
  sum_of-zero w zero f h = refl
  sum_of-zero w (suc n) f h = omega (arith, h n, sum_of-zero w n f h)

  pub sum_of-one : (w : A → ℕ) (n : ℕ) (f : ℕ → A) → ((i : ℕ) → w (f i) ≡ 1) → sum_of w n f ≡ n
  unfolding sum_of
  sum_of-one w zero f h = refl
  sum_of-one w (suc n) f h = omega (arith, h n, sum_of-one w n f h)
