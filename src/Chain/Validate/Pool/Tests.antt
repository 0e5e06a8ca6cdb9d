-- ===== src/Chain/Validate/Pool/Tests.antt =====
-- Runs of the pool: one worker with one good item, and two workers with a bad and a good item.
use boxd.Prelude.{ℕ, ◌+◌, ◌*◌, ◌≤◌, ◌<◌, ◌≡◌, refl, Option, none, some, ◌==◌, if◌then◌else◌, arith}
use boxd.Chain.Error.{ChainError, double_spend_tx}
use boxd.Chain.Validate.Pool.{
  reporting, returned, Pool, new_pool, give_item, report, take_nil, take_error, finish, Step, gives,
  checks, takes_nil, takes_error, finishes, Reach, start, later,
}
use boxd.Chain.Validate.Pool.Measure.{steps, steps-bounded}
use boxd.Chain.Validate.Pool.Safety.{returned-none, returned-some, running-goes_on, reporting-stuck}

abbrev good : ℕ → Option ChainError
good item = none

abbrev one_given : Pool
one_given = give_item new_pool 0

abbrev one_checked : Pool
one_checked = report one_given 0 0 none

abbrev one_taken : Pool
one_taken = take_nil one_checked 0

abbrev one_done : Pool
one_done = finish one_taken

one_run : Reach 1 1 good new_pool one_done
unfolding new_pool
one_run =
    later
      (later
        (later (later start (gives 0 (omega arith) refl (omega arith) (omega arith) refl))
          (checks 0 0 (omega arith) refl))
        (takes_nil 0 0 (omega arith) refl (omega arith) refl))
      (finishes refl (omega arith))

returned-none_example : good 0 ≡ none
returned-none_example = returned-none 1 1 good one_done one_run refl 0 (omega arith)

running-goes_on_example : (q : Pool) × Step 1 1 good new_pool q
unfolding new_pool
running-goes_on_example = running-goes_on 1 1 good new_pool (omega arith) start refl

steps-bounded_example : steps 1 1 good one_run ≤ 4 * 1 + 1 + 1
steps-bounded_example = steps-bounded 1 1 good one_run

-- The first item fails.
abbrev first_fails : ℕ → Option ChainError
first_fails item = if item == 0 then some double_spend_tx else none

abbrev two_given : Pool
two_given = give_item (give_item new_pool 0) 1

abbrev two_checked : Pool
two_checked = report (report two_given 0 0 (some double_spend_tx)) 1 1 none

abbrev two_failed : Pool
two_failed = take_error two_checked 0 double_spend_tx

two_run : Reach 2 2 first_fails new_pool two_failed
unfolding new_pool
two_run =
    later
      (later
        (later
          (later (later start (gives 0 (omega arith) refl (omega arith) (omega arith) refl))
            (gives 1 (omega arith) refl (omega arith) (omega arith) refl))
          (checks 0 0 (omega arith) refl))
        (checks 1 1 (omega arith) refl))
      (takes_error 0 0 double_spend_tx (omega arith) refl (omega arith) refl)

returned-some_example : (item : ℕ) × (item < 2) × (first_fails item ≡ some double_spend_tx)
returned-some_example = returned-some 2 2 first_fails two_failed double_spend_tx two_run refl

reporting-stuck_example :
    (two_failed.main ≡ returned (some double_spend_tx)) × (two_failed.workers 1 ≡ reporting 1 none)
reporting-stuck_example =
    reporting-stuck 2 2 first_fails {p = two_failed} 1 1 none (some double_spend_tx) start refl refl
