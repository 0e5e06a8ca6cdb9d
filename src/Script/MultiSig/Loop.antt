-- ===== src/Script/MultiSig/Loop.antt =====
-- The loop of the multisignature check computes the greedy assignment of keys to signatures.
use boxd.Prelude.{
  ℕ, zero, suc, ◌+◌, ◌-◌, ◌^◌, ◌≤◌, ◌<◌, ◌≡◌, refl, ap, sym, ◌∙◌, Bool, true, false, Bool-cases,
  inl, inr, List, [], ◌∷◌, ◌++◌, append_assoc, length, length-append, get_or, get_or-append, ltb,
  lt→ltb, le→ltb, if◌then◌else◌, arith,
}
use boxd.Prelude.Words.{add64}
use native.Mathlib.Decide.{dec_lt}
use boxd.Script.Stack.{Operand, Stack, top_n}
use boxd.Script.Stack.Access.{top_n-in}
use boxd.Script.MultiSig.{multi_sig_loop}
use boxd.Script.MultiSig.Greedy.{greedy, greedy_yes, greedy_no, greedy-few_keys}

-- The operands `l` stand on the stack from index `i` on.
pub record IsAt (stack : Stack) (i : ℕ) (l : List Operand) : Type 0 where
  pub above : List Operand
  pub below : List Operand
  pub shape : stack ≡ above ++ (l ++ below)
  pub index : i ≡ length above + 1

pub top_n-IsAt :
    (stack : Stack) (i : ℕ) (o : Operand) (l : List Operand)
    → IsAt stack i (o ∷ l)
    → length stack < 2 ^ 62
    → top_n stack i ≡ o
top_n-IsAt stack i o l at small =
    let len : length stack ≡ length at.above + suc (length (l ++ at.below)) =
      ap length at.shape ∙ length-append at.above _ in
    top_n-in stack i (omega (arith, at.index)) (omega (arith, at.index, len)) (omega arith)
    ∙ ap (λ (t : Stack). get_or t (i - 1) []) at.shape
    ∙ get_or-append at.above o (l ++ at.below) (i - 1) [] (omega (arith, at.index))

pub IsAt-next :
    (stack : Stack) (i : ℕ) (o : Operand) (l : List Operand)
    → IsAt stack i (o ∷ l)
    → length stack < 2 ^ 62
    → IsAt stack (add64 i 1) l
IsAt-next stack i o l at small =
    let len : length stack ≡ length at.above + suc (length (l ++ at.below)) =
      ap length at.shape ∙ length-append at.above _ in
    record {
      above = at.above ++ (o ∷ []);
      below = at.below;
      shape = at.shape ∙ sym (append_assoc at.above (o ∷ []) (l ++ at.below));
      index = omega (arith, at.index, len, length-append at.above (o ∷ []));
    }

loop_failed :
    (verify : Operand → Operand → Bool) (stack : Stack) (fuel keys sigs key_idx sig_idx : ℕ)
    → multi_sig_loop verify stack fuel false keys sigs key_idx sig_idx ≡ false
unfolding multi_sig_loop
loop_failed verify stack zero keys sigs key_idx sig_idx = refl
loop_failed verify stack (suc fuel) keys sigs key_idx sig_idx = refl

-- A round that takes a key.
loop_step :
    (verify : Operand → Operand → Bool) (stack : Stack) (s k : Operand) (n m i j : ℕ)
    → top_n stack j ≡ s
    → top_n stack i ≡ k
    → multi_sig_loop verify stack (suc n) true (suc n) (suc m) i j ≡ (
        if verify s k
        then multi_sig_loop verify stack n
            (if ltb n m then false else true)
            n
            m
            (add64 i 1)
            (add64 j 1)
        else multi_sig_loop verify stack n
            (if ltb n (suc m) then false else true)
            n
            (suc m)
            (add64 i 1)
            j)
unfolding multi_sig_loop
loop_step verify stack s k n m i j es ek =
    let less_n : suc n - 1 ≡ n = omega arith in
    let less_m : suc m - 1 ≡ m = omega arith in
    rw (es, ek, less_n, less_m, lt→ltb 0 (suc m) (omega arith))
      (elim (Bool-cases (verify s k)) [ inl e ↦ rw e | inr e ↦ rw e ])

pub loop-greedy :
    (verify : Operand → Operand → Bool) (stack : Stack) (sigs keys : List Operand) (i j : ℕ)
    → IsAt stack i keys
    → IsAt stack j sigs
    → length stack < 2 ^ 62
    → length sigs ≤ length keys
    → multi_sig_loop verify stack (length keys) true (length keys) (length sigs) i j
      ≡ greedy verify sigs keys
loop-greedy verify stack [] [] i j ak at_sig small h = unfold multi_sig_loop greedy in refl
loop-greedy verify stack [] (k ∷ keys) i j ak at_sig small h = unfold multi_sig_loop greedy in refl
loop-greedy verify stack (s ∷ sigs) [] i j ak at_sig small h = absurd (omega arith)
loop-greedy verify stack (s ∷ sigs) (k ∷ keys) i j ak at_sig small h =
    loop_step verify stack s k (length keys) (length sigs) i j
      (top_n-IsAt stack j s sigs at_sig small) (top_n-IsAt stack i k keys ak small)
    ∙ elim (Bool-cases (verify s k)) [
      | inl e ↦
          rw
            (e, greedy_yes verify s k sigs keys e, le→ltb (length keys) (length sigs) (omega arith))
            (loop-greedy verify stack sigs keys (add64 i 1) (add64 j 1)
              (IsAt-next stack i k keys ak small) (IsAt-next stack j s sigs at_sig small) small
              (omega arith))
      | inr e ↦ elim (dec_lt (length keys) (suc (length sigs))) [
        | yes few ↦ rw (
          e,
          greedy_no verify s k sigs keys e,
          lt→ltb (length keys) (suc (length sigs)) few,
          loop_failed,
          greedy-few_keys verify (s ∷ sigs) keys few,
        )
        | no enough ↦
            rw
              (
                e,
                greedy_no verify s k sigs keys e,
                le→ltb (length keys) (suc (length sigs)) (omega arith),
              )
              (loop-greedy verify stack (s ∷ sigs) keys (add64 i 1) j
                (IsAt-next stack i k keys ak small) at_sig small (omega arith))
      ]
    ]
