-- ===== src/Chain/Validate/Pool/Measure.antt =====
-- The length of a run of the pool.
use boxd.Prelude.{subst, ℕ, suc, ◌+◌, ◌≤◌, ◌<◌, ◌≡◌, refl, ap, Option, none, some, arith}
use boxd.Prelude.Family.{sum_of-one, update, sum_of, sum_of-update, sum_of-one}
use boxd.Chain.Error.{ChainError}
use boxd.Chain.Validate.Pool.{
  Worker, idle, checking, reporting, stopped, Main, running, returned, Pool, new_pool, Step, gives,
  checks, takes_nil, takes_error, finishes, stops, Reach, start, later,
}
use boxd.Prelude.{◌-◌, ◌*◌}

-- What a worker can still do with the item it has.
unfoldable work : Worker → ℕ
work idle = 1
work (checking item) = 3
work (reporting item r) = 2
work stopped = 0

unfoldable main_work : Main → ℕ
main_work running = 1
main_work (returned r) = 0

module _ (workers_count total_items : ℕ) (check : ℕ → Option ChainError) where
  abbrev measure : Pool → ℕ
  measure p =
      4 * (total_items - p.next_item_idx) + sum_of work workers_count p.workers + main_work p.main

  -- The number of steps of a run.
  abbrev pub steps : {p q : Pool} → Reach workers_count total_items check p q → ℕ
  steps start = 0
  steps (later r st) = suc (steps r)

  work-update :
      (p : Pool) (i : ℕ) (old new : Worker)
      → i < workers_count
      → p.workers i ≡ old
      → sum_of work workers_count (update p.workers i new) + work old
        ≡ sum_of work workers_count p.workers + work new
  work-update p i old new lt e =
      subst
        (λ v.
          sum_of work workers_count (update p.workers i new) + work v
          ≡ sum_of work workers_count p.workers + work new)
        e (sum_of-update work workers_count p.workers i new lt)

  Step-measure :
      {p q : Pool} → Step workers_count total_items check p q → suc (measure q) ≤ measure p
  unfolding work main_work
  Step-measure {p} (gives i lt m o more e) =
      omega (arith, work-update p i idle (checking p.next_item_idx) lt e)
  Step-measure {p} (checks i item lt e) =
      omega (arith, work-update p i (checking item) (reporting item (check item)) lt e)
  Step-measure {p} (takes_nil i item lt m o e) =
      omega (arith, work-update p i (reporting item none) idle lt e)
  Step-measure {p} (takes_error i item x lt m o e) =
      let main : main_work p.main ≡ 1 = ap main_work m in
      omega (arith, main, work-update p i (reporting item (some x)) stopped lt e)
  Step-measure {p} (finishes m h) =
      let main : main_work p.main ≡ 1 = ap main_work m in omega (arith, main)
  Step-measure {p} (stops i lt h e) = omega (arith, work-update p i idle stopped lt e)

  idle_work : (n : ℕ) → sum_of work n (λ i. idle) ≡ n
  unfolding work
  idle_work n = sum_of-one work n (λ i. idle) (λ i. refl)

  steps-measure :
      {p : Pool} (r : Reach workers_count total_items check new_pool p)
      → steps r + measure p ≤ 4 * total_items + workers_count + 1
  unfolding new_pool main_work
  steps-measure start = omega (arith, idle_work workers_count)
  steps-measure (later r st) = omega (arith, steps-measure r, Step-measure st)

  -- Every run of the pool, with whatever choices, has at most four steps for each item, one for
  -- each worker and one more.
  pub steps-bounded :
      {p : Pool} (r : Reach workers_count total_items check new_pool p)
      → steps r ≤ 4 * total_items + workers_count + 1
  steps-bounded r = omega (arith, steps-measure r)
