-- ===== src/Script/Interp/Advance.antt =====
-- The loop of `evaluate` on a script that is cut where the counter stands: a push takes its operand
-- over, an opcode is executed.
use boxd.Prelude.{
  ℕ, suc, ◌+◌, ◌<◌, ◌≤◌, ◌≡◌, refl, sym, ap₂, ◌∙◌, true, [], ◌∷◌, ◌++◌, append_assoc, length,
  length-append, leb, arith,
}
use boxd.Prelude.Result.{Result, ok, err}
use boxd.Types.Transaction.{Transaction}
use boxd.Script.Builder.{Script, operand_prefix}
use boxd.Script.Error.{Error}
use boxd.Script.Interp.{exec_op, eval_loop}
use boxd.Script.Interp.Steps.{step-ok, step-err, eval_loop-more, eval_loop-err}
use boxd.Script.Opcode.{OpCode, op_pushdata4}
use boxd.Script.Parser.PushData.{push_op_code, parse_next_op-op, parse_next_op-push}
use boxd.Script.Signature.{Crypto}
use boxd.Script.Stack.{Stack, push}

push_op_code-le : (n : ℕ) → n ≤ 0xffff → leb (push_op_code n) op_pushdata4 ≡ true
unfolding push_op_code
push_op_code-le n h = ground arith

pub operand_prefix-positive : (n : ℕ) → 0 < length (operand_prefix n)
unfolding operand_prefix
operand_prefix-positive n = ground arith

module _ (crypto : Crypto) (tx : Transaction) (tx_in_idx : ℕ) where
  -- The loop at the cut between `pre` and `rest`.
  unfoldable pub run_at : ℕ → Script → Script → ℕ → Stack → Result Error Stack
  run_at fuel pre rest start stack =
      eval_loop crypto fuel (pre ++ rest) tx tx_in_idx (length pre) start stack

  recut :
      (fuel : ℕ) (s pre rest : Script) (pc start : ℕ) (stack : Stack)
      → s ≡ pre ++ rest
      → pc ≡ length pre
      → eval_loop crypto fuel s tx tx_in_idx pc start stack ≡ run_at fuel pre rest start stack
  unfolding run_at
  recut fuel s pre rest pc start stack e ei =
      ap₂ (λ t k. eval_loop crypto fuel t tx tx_in_idx k start stack) e ei

  exec_op-push :
      (s m : Script) (pc start : ℕ) (stack : Stack)
      → length m ≤ 0xffff
      → exec_op crypto s (push_op_code (length m)) m tx tx_in_idx pc start stack
        ≡ ok (start, push m stack)
  unfolding exec_op
  exec_op-push s m pc start stack h = rw (push_op_code-le (length m) h)

  pub run_at-push :
      (fuel : ℕ) (pre m rest : Script) (start : ℕ) (stack : Stack)
      → length m ≤ 0xffff
      → run_at (suc fuel) pre (operand_prefix (length m) ++ (m ++ rest)) start stack
        ≡ run_at fuel (pre ++ (operand_prefix (length m) ++ m)) rest start (push m stack)
  unfolding run_at
  run_at-push fuel pre m rest start stack h =
      let p = operand_prefix (length m) in
      let s = pre ++ (p ++ (m ++ rest)) in
      eval_loop-more crypto s tx tx_in_idx fuel (length pre) start stack
        (length pre + length p + length m, start, push m stack)
        (omega (
          arith,
          length-append pre (p ++ (m ++ rest)),
          length-append p (m ++ rest),
          operand_prefix-positive (length m),
        ))
        (step-ok crypto s tx tx_in_idx (length pre) start stack _ (start, push m stack)
          (parse_next_op-push s pre m rest (length pre) refl refl h) refl
          (exec_op-push s m (length pre + length p + length m) start stack h))
      ∙ recut fuel s (pre ++ (p ++ m)) rest (length pre + length p + length m) start (push m stack)
          (simp append_assoc) (omega (arith, length-append pre (p ++ m), length-append p m))

  pub run_at-op :
      (fuel : ℕ) (pre rest : Script) (op : OpCode) (start : ℕ) (stack : Stack) (r : ℕ × Stack)
      → op_pushdata4 < op
      → exec_op crypto (pre ++ (op ∷ rest)) op [] tx tx_in_idx (length pre + 1) start stack ≡ ok r
      → run_at (suc fuel) pre (op ∷ rest) start stack ≡ run_at fuel (pre ++ (op ∷ [])) rest r.0 r.1
  unfolding run_at
  run_at-op fuel pre rest op start stack r h e =
      let s = pre ++ (op ∷ rest) in
      eval_loop-more crypto s tx tx_in_idx fuel (length pre) start stack (length pre + 1, r.0, r.1)
        (omega (arith, length-append pre (op ∷ rest)))
        (step-ok crypto s tx tx_in_idx (length pre) start stack _ r
          (parse_next_op-op s pre rest op (length pre) refl refl h) refl e)
      ∙ recut fuel s (pre ++ (op ∷ [])) rest (length pre + 1) r.0 r.1
          (sym (append_assoc pre (op ∷ []) rest)) (omega (arith, length-append pre (op ∷ [])))

  pub run_at-err :
      (fuel : ℕ) (pre rest : Script) (op : OpCode) (start : ℕ) (stack : Stack) (x : Error)
      → op_pushdata4 < op
      → exec_op crypto (pre ++ (op ∷ rest)) op [] tx tx_in_idx (length pre + 1) start stack ≡ err x
      → run_at (suc fuel) pre (op ∷ rest) start stack ≡ err x
  unfolding run_at
  run_at-err fuel pre rest op start stack x h e =
      let s = pre ++ (op ∷ rest) in
      eval_loop-err crypto s tx tx_in_idx fuel (length pre) start stack x
        (omega (arith, length-append pre (op ∷ rest)))
        (step-err crypto s tx tx_in_idx (length pre) start stack _ x
          (parse_next_op-op s pre rest op (length pre) refl refl h) refl e)
