-- ===== src/Chain/Validate/Pool/Kept.antt =====
-- Every step of the pool keeps what holds of it.
use boxd.Prelude.{
  subst, ℕ, suc, ◌≤◌, ◌<◌, ◌≡◌, refl, sym, ap, ◌∙◌, inl, inr, Option, none, some, ◌==◌, ==→eq,
  arith, Bool-cases,
}
use boxd.Prelude.Family.{update_same, update_all}
use boxd.Chain.Error.{ChainError}
use boxd.Chain.Validate.Pool.{
  idle, checking, reporting, stopped, running, returned, Pool, new_pool, give_item, report,
  take_nil, take_error, finish, stop_worker, Step, gives, checks, takes_nil, takes_error, finishes,
  stops, Reach, start, later,
}
use boxd.Chain.Validate.Pool.Invariant.{
  busy, item_of, is_failed, not_some, Holds, Inv, Holds-suc, IsAccounted-update, Inv-new,
  busy-update, other_item,
}

module _ (workers_count total_items : ℕ) (check : ℕ → Option ChainError) where
  gives-Inv :
      (p : Pool) (i : ℕ)
      → Inv workers_count total_items check p
      → i < workers_count
      → p.next_item_idx < total_items
      → p.workers i ≡ idle
      → Inv workers_count total_items check (give_item p i)
  unfolding busy item_of
  gives-Inv p i inv lt more e = record {
    bounded = omega arith;
    counted = omega (
      arith,
      inv.counted,
      busy-update workers_count total_items check p i idle (checking p.next_item_idx) lt e,
    );
    held =
        update_all (λ k v. Holds workers_count total_items check (suc p.next_item_idx) v) p.workers
          i (checking p.next_item_idx) (omega arith)
          (λ j.
            Holds-suc workers_count total_items check p.next_item_idx (p.workers j) (inv.held j));
    accounted = λ f item below. elim (Bool-cases (p.next_item_idx == item)) [
      | inl same ↦ inr (
        i,
        lt,
        ap item_of (update_same p.workers i (checking p.next_item_idx))
            ∙ ap some (==→eq p.next_item_idx item same),
      )
      | inr differ ↦
          IsAccounted-update workers_count total_items check p.workers i item
            (checking p.next_item_idx)
            (inl (inl (other_item workers_count total_items check p i item idle e (λ q. cc)))) lt
            (inv.accounted f item (ground (arith, differ, below)))
    ];
    is_open = inv.is_open;
    finished = inv.finished;
    failed = inv.failed;
  }

  checks-Inv :
      (p : Pool) (i item : ℕ)
      → Inv workers_count total_items check p
      → i < workers_count
      → p.workers i ≡ checking item
      → Inv workers_count total_items check (report p i item (check item))
  unfolding busy item_of
  checks-Inv p i item inv lt e =
      let mine : item < p.next_item_idx =
        subst (Holds workers_count total_items check p.next_item_idx) e (inv.held i) in
      record {
        bounded = inv.bounded;
        counted = omega (
          arith,
          inv.counted,
          busy-update workers_count total_items check p i (checking item)
              (reporting item (check item)) lt e,
        );
        held =
            update_all (λ k v. Holds workers_count total_items check p.next_item_idx v) p.workers i
              (reporting item (check item)) (mine, refl) inv.held;
        accounted = λ f one below.
            IsAccounted-update workers_count total_items check p.workers i one
              (reporting item (check item))
              (elim (Bool-cases (item == one)) [
                | inl same ↦ inl (inr (ap some (==→eq item one same)))
                | inr differ ↦ inl (
                    inl (
                      other_item workers_count total_items check p i one (checking item) e
                        (λ q. not_some item one differ q)))
              ])
              lt (inv.accounted f one below);
        is_open = inv.is_open;
        finished = inv.finished;
        failed = inv.failed;
      }

  takes_nil-Inv :
      (p : Pool) (i item : ℕ)
      → Inv workers_count total_items check p
      → i < workers_count
      → p.main ≡ running
      → p.workers i ≡ reporting item none
      → Inv workers_count total_items check (take_nil p i)
  unfolding busy item_of
  takes_nil-Inv p i item inv lt m e =
      let mine : (item < p.next_item_idx) × (none ≡ check item) =
        subst (Holds workers_count total_items check p.next_item_idx) e (inv.held i) in
      record {
        bounded = inv.bounded;
        counted = omega (
          arith,
          inv.counted,
          busy-update workers_count total_items check p i (reporting item none) idle lt e,
        );
        held =
            update_all (λ k v. Holds workers_count total_items check p.next_item_idx v) p.workers i
              idle tt inv.held;
        accounted = λ f one below.
            IsAccounted-update workers_count total_items check p.workers i one idle
              (elim (Bool-cases (item == one)) [
                | inl same ↦ inr (ap check (sym (==→eq item one same)) ∙ sym mine.1)
                | inr differ ↦ inl (
                    inl (
                      other_item workers_count total_items check p i one (reporting item none) e
                        (λ q. not_some item one differ q)))
              ])
              lt (inv.accounted f one below);
        is_open = inv.is_open;
        finished = λ q. absurd (cc (m, q));
        failed = inv.failed;
      }

  takes_error-Inv :
      (p : Pool) (i item : ℕ) (x : ChainError)
      → Inv workers_count total_items check p
      → i < workers_count
      → p.workers i ≡ reporting item (some x)
      → Inv workers_count total_items check (take_error p i x)
  unfolding busy item_of is_failed
  takes_error-Inv p i item x inv lt e =
      let mine : (item < p.next_item_idx) × (some x ≡ check item) =
        subst (Holds workers_count total_items check p.next_item_idx) e (inv.held i) in
      record {
        bounded = inv.bounded;
        counted = omega (
          arith,
          inv.counted,
          busy-update workers_count total_items check p i (reporting item (some x)) stopped lt e,
        );
        held =
            update_all (λ k v. Holds workers_count total_items check p.next_item_idx v) p.workers i
              stopped tt inv.held;
        accounted = λ f. absurd cc;
        is_open = λ q. absurd cc;
        finished = λ q. absurd cc;
        failed = λ y q. (item, omega (arith, mine.0, inv.bounded), sym mine.1 ∙ same_error x y q);
      }
    where
      same_error : (a b : ChainError) → returned (some a) ≡ returned (some b) → some a ≡ some b
      same_error a b q = cc

  finishes-Inv :
      (p : Pool)
      → Inv workers_count total_items check p
      → p.main ≡ running
      → total_items ≤ p.validated_items
      → Inv workers_count total_items check (finish p)
  unfolding is_failed
  finishes-Inv p inv m h = record {
    bounded = inv.bounded;
    counted = inv.counted;
    held = inv.held;
    accounted = λ f. inv.accounted (ap is_failed m);
    is_open = λ q. absurd cc;
    finished = λ q. h;
    failed = λ x q. absurd cc;
  }

  stops-Inv :
      (p : Pool) (i : ℕ)
      → Inv workers_count total_items check p
      → i < workers_count
      → p.workers i ≡ idle
      → Inv workers_count total_items check (stop_worker p i)
  unfolding busy item_of
  stops-Inv p i inv lt e = record {
    bounded = inv.bounded;
    counted =
        omega
          (arith, inv.counted, busy-update workers_count total_items check p i idle stopped lt e);
    held =
        update_all (λ k v. Holds workers_count total_items check p.next_item_idx v) p.workers i
          stopped tt inv.held;
    accounted = λ f one below.
        IsAccounted-update workers_count total_items check p.workers i one stopped
          (inl (inl (other_item workers_count total_items check p i one idle e (λ q. cc)))) lt
          (inv.accounted f one below);
    is_open = inv.is_open;
    finished = inv.finished;
    failed = inv.failed;
  }

  pub Step-Inv :
      {p q : Pool}
      → Step workers_count total_items check p q
      → Inv workers_count total_items check p
      → Inv workers_count total_items check q
  Step-Inv {p} (gives i lt m open_items more e) inv = gives-Inv p i inv lt more e
  Step-Inv {p} (checks i item lt e) inv = checks-Inv p i item inv lt e
  Step-Inv {p} (takes_nil i item lt m open_items e) inv = takes_nil-Inv p i item inv lt m e
  Step-Inv {p} (takes_error i item x lt m open_items e) inv = takes_error-Inv p i item x inv lt e
  Step-Inv {p} (finishes m h) inv = finishes-Inv p inv m h
  Step-Inv {p} (stops i lt h e) inv = stops-Inv p i inv lt e

  pub Reach-Inv :
      {p : Pool}
      → Reach workers_count total_items check new_pool p
      → Inv workers_count total_items check p
  Reach-Inv start = Inv-new workers_count total_items check
  Reach-Inv (later r st) = Step-Inv st (Reach-Inv r)
