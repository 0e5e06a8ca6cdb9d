-- ===== src/Chain/Validate/Pool/Safety.antt =====
-- What the loop answers, that it is never stuck, and what becomes of the workers.
use boxd.Prelude.{
  ℕ, ◌≤◌, ◌<◌, ◌≡◌, refl, ap, ◌∙◌, inl, inr, ◌⊎◌, Bool, true, false, Option, none, some, arith,
}
use boxd.Prelude.Family.{update_other, update_all, sum_of, le-sum_of}
use boxd.Chain.Error.{ChainError}
use boxd.Chain.Validate.Pool.{
  Worker, idle, checking, reporting, stopped, running, returned, Pool, new_pool, give_item, report,
  take_nil, take_error, finish, Step, gives, checks, takes_nil, takes_error, finishes, stops, Reach,
  start, later,
}
use boxd.Chain.Validate.Pool.Invariant.{busy, item_of, is_failed, Inv}
use boxd.Chain.Validate.Pool.Kept.{Reach-Inv}
use native.Mathlib.Decide.{dec_lt}
use boxd.Prelude.Family.{sum_of-positive}

unfoldable is_stopped : Worker → Bool
is_stopped idle = false
is_stopped (checking item) = false
is_stopped (reporting item r) = false
is_stopped stopped = true

is_stopped_stopped : is_stopped stopped ≡ true
unfolding is_stopped
is_stopped_stopped = refl

-- A worker that is stopped, idle, or has an item.
Worker-cases :
    (w : Worker)
    → (w ≡ stopped)
      ⊎ (w ≡ idle)
      ⊎ ((item : ℕ) × (w ≡ checking item))
      ⊎ ((item : ℕ) × (r : Option ChainError) × (w ≡ reporting item r))
Worker-cases idle = inr (inl refl)
Worker-cases (checking item) = inr (inr (inl (item, refl)))
Worker-cases (reporting item r) = inr (inr (inr (item, r, refl)))
Worker-cases stopped = inl refl

module _ (workers_count total_items : ℕ) (check : ℕ → Option ChainError) where
  busy_bound :
      (p : Pool)
      → Inv workers_count total_items check p
      → total_items ≤ p.validated_items
      → (sum_of busy workers_count p.workers ≡ 0) × (p.next_item_idx ≡ total_items)
  busy_bound p inv h =
      (omega (arith, inv.counted, inv.bounded), omega (arith, inv.counted, inv.bounded))

  busy_of_item : (w : Worker) (item : ℕ) → item_of w ≡ some item → busy w ≡ 1
  unfolding busy item_of
  busy_of_item idle item e = absurd cc
  busy_of_item (checking one) item e = refl
  busy_of_item (reporting one r) item e = refl
  busy_of_item stopped item e = absurd cc

  -- The loop returns nil only when every item passed its check, in whatever order the workers took
  -- the items and sent their results.
  pub returned-none :
      (p : Pool)
      → Reach workers_count total_items check new_pool p
      → p.main ≡ returned none
      → (item : ℕ) → item < total_items
      → check item ≡ none
  unfolding is_failed
  returned-none p r e item lt =
      let inv = Reach-Inv workers_count total_items check r in
      let (quiet, all_given) = busy_bound p inv (inv.finished e) in
      elim (inv.accounted (ap is_failed e) item (omega (arith, all_given))) [
        | inl passed ↦ passed
        | inr (i, below, has) ↦
            let one : busy (p.workers i) ≡ 1 = busy_of_item (p.workers i) item has in
            absurd (omega (arith, one, quiet, le-sum_of busy workers_count p.workers i below))
      ]

  -- An error that the loop returns is that of one of the items.
  pub returned-some :
      (p : Pool) (e : ChainError)
      → Reach workers_count total_items check new_pool p
      → p.main ≡ returned (some e)
      → (item : ℕ) × (item < total_items) × (check item ≡ some e)
  returned-some p e r = (Reach-Inv workers_count total_items check r).failed e

  -- While the loop runs no worker has returned.
  abbrev AreWorking : Pool → Type 0
  AreWorking p = p.main ≡ running → (i : ℕ) → is_stopped (p.workers i) ≡ false

  Step-AreWorking :
      {p q : Pool}
      → Step workers_count total_items check p q
      → Inv workers_count total_items check p
      → AreWorking p
      → AreWorking q
  unfolding is_stopped
  Step-AreWorking {p} (gives i lt m o more e) inv w n =
      update_all (λ k v. is_stopped v ≡ false) p.workers i (checking p.next_item_idx) refl (w n)
  Step-AreWorking {p} (checks i item lt e) inv w n =
      update_all (λ k v. is_stopped v ≡ false) p.workers i (reporting item (check item)) refl (w n)
  Step-AreWorking {p} (takes_nil i item lt m o e) inv w n =
      update_all (λ k v. is_stopped v ≡ false) p.workers i idle refl (w n)
  Step-AreWorking (takes_error i item x lt m o e) inv w n = absurd cc
  Step-AreWorking (finishes m h) inv w n = absurd cc
  Step-AreWorking (stops i lt h e) inv w n = absurd (cc (inv.is_open n, h))

  Reach-AreWorking : {p : Pool} → Reach workers_count total_items check new_pool p → AreWorking p
  unfolding new_pool is_stopped
  Reach-AreWorking start = λ n i. refl
  Reach-AreWorking (later r st) =
      Step-AreWorking st (Reach-Inv workers_count total_items check r) (Reach-AreWorking r)

  -- A worker with an item can go on while the loop runs.
  busy_goes_on :
      (p : Pool) (i : ℕ)
      → i < workers_count
      → p.main ≡ running
      → p.validated_items < total_items
      → 1 ≤ busy (p.workers i)
      → (q : Pool) × Step workers_count total_items check p q
  unfolding busy
  busy_goes_on p i lt m o h = elim (Worker-cases (p.workers i)) [
    | inl s ↦ absurd (not_busy stopped refl s)
    | inr (inl e) ↦ absurd (not_busy idle refl e)
    | inr (inr (inl (item, e))) ↦ (report p i item (check item), checks i item lt e)
    | inr (inr (inr (item, none, e))) ↦ (take_nil p i, takes_nil i item lt m o e)
    | inr (inr (inr (item, some x, e))) ↦ (take_error p i x, takes_error i item x lt m o e)
  ]
    where
      not_busy : (w : Worker) → busy w ≡ 0 → p.workers i ≡ w → ⊥
      not_busy w z e =
          let same : busy (p.workers i) ≡ busy w = ap busy e in omega (arith, h, same, z)

  -- In every state that can be reached while the loop runs, the loop or a worker can go on, when
  -- there is a worker.
  pub running-goes_on :
      (p : Pool)
      → 0 < workers_count
      → Reach workers_count total_items check new_pool p
      → p.main ≡ running
      → (q : Pool) × Step workers_count total_items check p q
  running-goes_on p some_worker r m = elim (dec_lt p.validated_items total_items) [
    | no all_done ↦ (finish p, finishes m (omega arith))
    | yes open_items ↦ elim (dec_lt 0 (sum_of busy workers_count p.workers)) [
      | yes some_busy ↦
          let (i, lt, has) = sum_of-positive busy workers_count p.workers (omega arith) in
          busy_goes_on p i lt m open_items has
      | no none_busy ↦
          let inv = Reach-Inv workers_count total_items check r in
          let more : p.next_item_idx < total_items = omega (arith, inv.counted) in
          elim (Worker-cases (p.workers 0)) [
            | inl s ↦ absurd (cc (ap is_stopped s, Reach-AreWorking r m 0, is_stopped_stopped))
            | inr (inl e) ↦ (give_item p 0, gives 0 some_worker m open_items more e)
            | inr (inr (inl (item, e))) ↦
                (report p 0 item (check item), checks 0 item some_worker e)
            | inr (inr (inr (item, none, e))) ↦
                (take_nil p 0, takes_nil 0 item some_worker m open_items e)
            | inr (inr (inr (item, some x, e))) ↦
                (take_error p 0 x, takes_error 0 item x some_worker m open_items e)
          ]
    ]
  ]

  Step-returned :
      {p q : Pool} (r : Option ChainError)
      → Step workers_count total_items check p q
      → p.main ≡ returned r
      → q.main ≡ returned r
  Step-returned r (gives i lt m o more e) h = h
  Step-returned r (checks i item lt e) h = h
  Step-returned r (takes_nil i item lt m o e) h = h
  Step-returned r (takes_error i item x lt m o e) h = absurd (cc (m, h))
  Step-returned r (finishes m o) h = absurd (cc (m, h))
  Step-returned r (stops i lt o e) h = h

  Step-stuck :
      {p q : Pool} (i item : ℕ) (found r : Option ChainError)
      → Step workers_count total_items check p q
      → p.main ≡ returned r
      → p.workers i ≡ reporting item found
      → q.workers i ≡ reporting item found
  Step-stuck i item found r (gives j lt m o more e) h w = absurd (cc (m, h))
  Step-stuck {p} i item found r (checks j one lt e) h w =
      update_other p.workers j i (reporting one (check one)) (λ same. cc (same, e, w)) ∙ w
  Step-stuck i item found r (takes_nil j one lt m o e) h w = absurd (cc (m, h))
  Step-stuck i item found r (takes_error j one x lt m o e) h w = absurd (cc (m, h))
  Step-stuck i item found r (finishes m o) h w = absurd (cc (m, h))
  Step-stuck {p} i item found r (stops j lt o e) h w =
      update_other p.workers j i stopped (λ same. cc (same, e, w)) ∙ w

  -- A worker that has a result when the loop has returned never sends it and never returns: it has
  -- the result in every state from there on.
  pub reporting-stuck :
      {p q : Pool} (i item : ℕ) (found r : Option ChainError)
      → Reach workers_count total_items check p q
      → p.main ≡ returned r
      → p.workers i ≡ reporting item found
      → (q.main ≡ returned r) × (q.workers i ≡ reporting item found)
  reporting-stuck i item found r start h w = (h, w)
  reporting-stuck i item found r (later run st) h w =
      let (at_end, has) = reporting-stuck i item found r run h w in
      (Step-returned r st at_end, Step-stuck i item found r st at_end has)
