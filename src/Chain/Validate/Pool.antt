-- ===== src/Chain/Validate/Pool.antt =====
-- core/chain/validate.go: the scripts of a block checked by workers (scriptValidator). An item is
-- its index, and `check` what script.Validate says of it. The channels are not buffered, so a send
-- and its receipt are one step; a `select` is a choice between the steps that are possible.
pub mod Invariant
pub mod Kept
pub mod Measure
pub mod Safety
mod Tests
use boxd.Prelude.{ℕ, suc, ◌+◌, ◌≤◌, ◌<◌, ◌≡◌, Bool, true, false, Option, none, some}
use boxd.Prelude.Family.{update}
use boxd.Chain.Error.{ChainError}

-- A worker waits for an item, checks one, waits to send what it found, or has returned.
pub data Worker : Type 0 where
  idle : Worker
  checking : ℕ → Worker
  reporting : ℕ → Option ChainError → Worker
  stopped : Worker

-- `validate` runs, or has returned an error or nil.
pub data Main : Type 0 where
  running : Main
  returned : Option ChainError → Main

pub record Pool : Type 0 where
  pub next_item_idx : ℕ
  pub validated_items : ℕ
  pub quit : Bool
  pub main : Main
  pub workers : ℕ → Worker

-- The workers are started before the loop.
unfoldable pub new_pool : Pool
new_pool = record {
  next_item_idx = 0;
  validated_items = 0;
  quit = false;
  main = running;
  workers = λ i. idle;
}

abbrev pub give_item : Pool → ℕ → Pool
give_item p i = record p {
  next_item_idx = suc p.next_item_idx;
  workers = update p.workers i (checking p.next_item_idx);
}

abbrev pub report : Pool → ℕ → ℕ → Option ChainError → Pool
report p i item r = record p { workers = update p.workers i (reporting item r) }

abbrev pub take_nil : Pool → ℕ → Pool
take_nil p i = record p {
  validated_items = suc p.validated_items;
  workers = update p.workers i idle;
}

abbrev pub take_error : Pool → ℕ → ChainError → Pool
take_error p i e = record p {
  validated_items = suc p.validated_items;
  quit = true;
  main = returned (some e);
  workers = update p.workers i stopped;
}

abbrev pub finish : Pool → Pool
finish p = record p { quit = true; main = returned none }

abbrev pub stop_worker : Pool → ℕ → Pool
stop_worker p i = record p { workers = update p.workers i stopped }

-- `workers_count` workers and `total_items` items.
module _ (workers_count total_items : ℕ) (check : ℕ → Option ChainError) where
  pub data Step (p : Pool) : Pool → Type 0 where
    gives :
        (i : ℕ)
        → i < workers_count
        → p.main ≡ running
        → p.validated_items < total_items
        → p.next_item_idx < total_items
        → p.workers i ≡ idle
        → Step p (give_item p i)
    checks :
        (i item : ℕ)
        → i < workers_count
        → p.workers i ≡ checking item
        → Step p (report p i item (check item))
    takes_nil :
        (i item : ℕ)
        → i < workers_count
        → p.main ≡ running
        → p.validated_items < total_items
        → p.workers i ≡ reporting item none
        → Step p (take_nil p i)
    takes_error :
        (i item : ℕ) (e : ChainError)
        → i < workers_count
        → p.main ≡ running
        → p.validated_items < total_items
        → p.workers i ≡ reporting item (some e)
        → Step p (take_error p i e)
    finishes : p.main ≡ running → total_items ≤ p.validated_items → Step p (finish p)
    stops :
        (i : ℕ) → i < workers_count → p.quit ≡ true → p.workers i ≡ idle → Step p (stop_worker p i)

  pub data Reach (p : Pool) : Pool → Type 0 where
    start : Reach p p
    later : {q r : Pool} → Reach p q → Step q r → Reach p r
