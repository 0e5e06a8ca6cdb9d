-- ===== src/Util/Merkle/Queue.antt =====
-- The array of the tree as a queue: a round takes two slots from its front and adds one at its end.
use boxd.Prelude.{
  ℕ, zero, suc, ◌+◌, ◌≡◌, sym, ap, ◌∙◌, Option, none, List, [], ◌∷◌, ◌++◌, append-nil, append_assoc,
  length, length-append, get_or, get_or-append, set, set-append, replicate, arith,
}
use boxd.Util.Merkle.{Hashing, parent, merkle_loop}

abbrev pub Slot : Type 0
Slot = Option (List ℕ)

module _ (hashing : Hashing) where
  abbrev pub queue_run : ℕ → List Slot → List Slot
  queue_run zero q = q
  queue_run (suc n) [] = []
  queue_run (suc n) (x ∷ []) = x ∷ []
  queue_run (suc n) (x ∷ y ∷ q) = queue_run n (q ++ (parent hashing x y ∷ []))

  -- The slots that are done, the queue, and the slots that are still nil.
  pub merkle_loop-queue_run :
      (rounds : ℕ) (done queue : List Slot) (i offset : ℕ)
      → i ≡ length done
      → length queue ≡ suc rounds
      → offset ≡ length done + length queue
      → (past : List Slot) × (merkle_loop hashing rounds i offset
            (done ++ (queue ++ replicate rounds none))
          ≡ past ++ queue_run rounds queue)
  unfolding merkle_loop
  merkle_loop-queue_run zero done queue i offset hi hq ho =
      (done, ap (λ l. done ++ l) (append-nil queue))
  merkle_loop-queue_run (suc n) done [] i offset hi hq ho = absurd (omega arith)
  merkle_loop-queue_run (suc n) done (x ∷ []) i offset hi hq ho = absurd (omega arith)
  merkle_loop-queue_run (suc n) done (x ∷ y ∷ q) i offset hi hq ho =
      let p = parent hashing x y in
      let whole = done ++ ((x ∷ y ∷ q) ++ (none ∷ replicate n none)) in
      let first : get_or whole i none ≡ x =
        get_or-append done x ((y ∷ q) ++ (none ∷ replicate n none)) i none hi in
      let second : get_or whole (i + 1) none ≡ y =
        ap (λ l. get_or l (i + 1) none)
          (sym (append_assoc done (x ∷ []) (y ∷ (q ++ (none ∷ replicate n none)))))
        ∙ get_or-append (done ++ (x ∷ [])) y (q ++ (none ∷ replicate n none)) (i + 1) none
            (omega (arith, hi, length-append done (x ∷ []))) in
      let written : set whole offset p ≡ (done ++ (x ∷ y ∷ q)) ++ (p ∷ replicate n none) =
        ap (λ l. set l offset p) (sym (append_assoc done (x ∷ y ∷ q) (none ∷ replicate n none)))
        ∙ set-append (done ++ (x ∷ y ∷ q)) none p (replicate n none) offset
            (omega (arith, ho, length-append done (x ∷ y ∷ q))) in
      let shape : (done ++ (x ∷ y ∷ q)) ++ (p ∷ replicate n none)
          ≡ (done ++ (x ∷ y ∷ [])) ++ ((q ++ (p ∷ [])) ++ replicate n none) =
        regroup done x y q p (replicate n none) in
      let (past, e) =
        merkle_loop-queue_run n (done ++ (x ∷ y ∷ [])) (q ++ (p ∷ [])) (i + 2) (offset + 1)
          (omega (arith, hi, length-append done (x ∷ y ∷ [])))
          (omega (arith, hq, length-append q (p ∷ [])))
          (omega (arith, ho, length-append done (x ∷ y ∷ []), length-append q (p ∷ []))) in
      (
        past,
        rw (first, second) (ap (merkle_loop hashing n (i + 2) (offset + 1)) (written ∙ shape) ∙ e),
      )
    where
      regroup :
          (d : List Slot) (a b : Slot) (r : List Slot) (c : Slot) (t : List Slot)
          → (d ++ (a ∷ b ∷ r)) ++ (c ∷ t) ≡ (d ++ (a ∷ b ∷ [])) ++ ((r ++ (c ∷ [])) ++ t)
      regroup [] a b r c t = ap (λ (l : List Slot). a ∷ b ∷ l) (sym (append_assoc r (c ∷ []) t))
      regroup (z ∷ d) a b r c t = ap (λ (l : List Slot). z ∷ l) (regroup d a b r c t)
