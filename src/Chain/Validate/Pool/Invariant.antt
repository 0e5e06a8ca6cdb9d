-- ===== src/Chain/Validate/Pool/Invariant.antt =====
-- What holds of the workers and of the loop in every state that can be reached.
use boxd.Prelude.{
  subst, ℕ, suc, ◌+◌, ◌≤◌, ◌<◌, ◌≡◌, refl, sym, ap, ◌∙◌, inl, inr, ◌⊎◌, Bool, true, false, Option,
  none, some, ◌==◌, ==→eq, eq→==, arith, Bool-cases,
}
use boxd.Prelude.Family.{update, update_same, sum_of, sum_of-update, sum_of-zero}
use boxd.Chain.Error.{ChainError}
use boxd.Chain.Validate.Pool.{
  Worker, idle, checking, reporting, stopped, Main, running, returned, Pool, new_pool,
}

-- A worker with an item counts one.
unfoldable pub busy : Worker → ℕ
busy idle = 0
busy (checking item) = 1
busy (reporting item r) = 1
busy stopped = 0

unfoldable pub item_of : Worker → Option ℕ
item_of idle = none
item_of (checking item) = some item
item_of (reporting item r) = some item
item_of stopped = none

unfoldable pub is_failed : Main → Bool
is_failed running = false
is_failed (returned none) = false
is_failed (returned (some e)) = true

pub not_some : (a b : ℕ) → (a == b) ≡ false → some a ≡ some b → ⊥
not_some a b h q = cc (eq→== a b (some_injective a b q), h)
  where
    some_injective : (c d : ℕ) → some c ≡ some d → c ≡ d
    some_injective c d r = cc

module _ (workers_count total_items : ℕ) (check : ℕ → Option ChainError) where
  -- An item of a worker was given out, and a result is that of its item.
  abbrev pub Holds : ℕ → Worker → Type 0
  Holds next idle = Unit
  Holds next (checking item) = item < next
  Holds next (reporting item r) = (item < next) × (r ≡ check item)
  Holds next stopped = Unit

  -- An item that was given out passed its check, or a worker has it.
  abbrev pub IsAccounted : (ℕ → Worker) → ℕ → Type 0
  IsAccounted workers item =
      (check item ≡ none) ⊎ ((i : ℕ) × (i < workers_count) × (item_of (workers i) ≡ some item))

  pub record Inv (p : Pool) : Type 0 where
    pub bounded : p.next_item_idx ≤ total_items
    pub counted : p.validated_items + sum_of busy workers_count p.workers ≡ p.next_item_idx
    pub held : (i : ℕ) → Holds p.next_item_idx (p.workers i)
    pub accounted :
        is_failed p.main ≡ false → (item : ℕ) → item < p.next_item_idx → IsAccounted p.workers item
    pub is_open : p.main ≡ running → p.quit ≡ false
    pub finished : p.main ≡ returned none → total_items ≤ p.validated_items
    pub failed :
        (e : ChainError)
        → p.main ≡ returned (some e)
        → (item : ℕ) × (item < total_items) × (check item ≡ some e)

  pub Holds-suc : (next : ℕ) (w : Worker) → Holds next w → Holds (suc next) w
  Holds-suc next idle h = tt
  Holds-suc next (checking item) h = omega arith
  Holds-suc next (reporting item r) h = (omega arith, h.1)
  Holds-suc next stopped h = tt

  -- An update at a worker that leaves the other items where they are.
  pub IsAccounted-update :
      (workers : ℕ → Worker) (i item : ℕ) (w : Worker)
      → ((item_of (workers i) ≡ some item → ⊥) ⊎ (item_of w ≡ some item)) ⊎ (check item ≡ none)
      → i < workers_count
      → IsAccounted workers item
      → IsAccounted (update workers i w) item
  IsAccounted-update workers i item w way lt (inl passed) = inl passed
  IsAccounted-update workers i item w (inr passed) lt old = inl passed
  IsAccounted-update workers i item w (inl (inr new)) lt old =
      inr (i, lt, ap item_of (update_same workers i w) ∙ new)
  IsAccounted-update workers i item w (inl (inl other)) lt (inr (j, below, has)) =
      elim (Bool-cases (i == j)) [
        | inl e ↦ absurd (other (ap (λ k. item_of (workers k)) (==→eq i j e) ∙ has))
        | inr e ↦ inr (j, below, rw e has)
      ]

  pub Inv-new : Inv new_pool
  unfolding new_pool busy
  Inv-new = record {
    bounded = omega arith;
    counted = omega (arith, sum_of-zero busy workers_count (λ i. idle) (λ i. refl));
    held = λ i. tt;
    accounted = λ f item lt. absurd (omega arith);
    is_open = λ e. refl;
    finished = λ e. absurd cc;
    failed = λ e q. absurd cc;
  }

  -- The number of busy workers after one of them changed.
  pub busy-update :
      (p : Pool) (i : ℕ) (old new : Worker)
      → i < workers_count
      → p.workers i ≡ old
      → sum_of busy workers_count (update p.workers i new) + busy old
        ≡ sum_of busy workers_count p.workers + busy new
  busy-update p i old new lt e =
      subst
        (λ v.
          sum_of busy workers_count (update p.workers i new) + busy v
          ≡ sum_of busy workers_count p.workers + busy new)
        e (sum_of-update busy workers_count p.workers i new lt)

  -- A worker that has no item, or another one.
  pub other_item :
      (p : Pool) (i item : ℕ) (old : Worker)
      → p.workers i ≡ old
      → (item_of old ≡ some item → ⊥)
      → item_of (p.workers i) ≡ some item
      → ⊥
  other_item p i item old e h q = h (ap item_of (sym e) ∙ q)
