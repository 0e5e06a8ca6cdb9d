-- ===== src/Script/Interp/Steps.antt =====
-- One round of `evaluate`, and the loop one round at a time.
use boxd.Prelude.{ℕ, zero, suc, ◌<◌, ◌≤◌, ◌≡◌, subst, none, some, length, lt→ltb, le→ltb}
use boxd.Prelude.Result.{ok, err}
use boxd.Types.Transaction.{Transaction}
use boxd.Script.Builder.{Script}
use boxd.Script.Error.{Error, failed}
use boxd.Script.Interp.{operand_bytes, exec_op, step, eval_loop}
use boxd.Script.Parser.{Parsed, parse_next_op}
use boxd.Script.Signature.{Crypto}
use boxd.Script.Stack.{Stack}

module _ (crypto : Crypto) (s : Script) (tx : Transaction) (tx_in_idx : ℕ) where
  pub step-run :
      (pc start : ℕ) (stack : Stack) (r : ℕ × Stack)
      → (parse_next_op s pc).failure ≡ none
      → exec_op crypto s
          (parse_next_op s pc).op_code
          (operand_bytes (parse_next_op s pc).operand)
          tx
          tx_in_idx
          (parse_next_op s pc).pc
          start
          stack
        ≡ ok r
      → step crypto s tx tx_in_idx pc start stack ≡ ok ((parse_next_op s pc).pc, r.0, r.1)
  unfolding step
  step-run pc start stack r good e = rw (step, good, e)

  pub step-fail :
      (pc start : ℕ) (stack : Stack) (x : Error)
      → (parse_next_op s pc).failure ≡ none
      → exec_op crypto s
          (parse_next_op s pc).op_code
          (operand_bytes (parse_next_op s pc).operand)
          tx
          tx_in_idx
          (parse_next_op s pc).pc
          start
          stack
        ≡ err x
      → step crypto s tx tx_in_idx pc start stack ≡ err x
  unfolding step
  step-fail pc start stack x good e = rw (step, good, e)

  pub step-ok :
      (pc start : ℕ) (stack : Stack) (p : Parsed) (r : ℕ × Stack)
      → parse_next_op s pc ≡ p
      → p.failure ≡ none
      → exec_op crypto s p.op_code (operand_bytes p.operand) tx tx_in_idx p.pc start stack ≡ ok r
      → step crypto s tx tx_in_idx pc start stack ≡ ok (p.pc, r.0, r.1)
  step-ok pc start stack p r e =
      subst
        (λ q.
          q.failure ≡ none
          → exec_op crypto s q.op_code (operand_bytes q.operand) tx tx_in_idx q.pc start stack
            ≡ ok r
          → step crypto s tx tx_in_idx pc start stack ≡ ok (q.pc, r.0, r.1))
        e (step-run pc start stack r)

  pub step-err :
      (pc start : ℕ) (stack : Stack) (p : Parsed) (x : Error)
      → parse_next_op s pc ≡ p
      → p.failure ≡ none
      → exec_op crypto s p.op_code (operand_bytes p.operand) tx tx_in_idx p.pc start stack ≡ err x
      → step crypto s tx tx_in_idx pc start stack ≡ err x
  step-err pc start stack p x e =
      subst
        (λ q.
          q.failure ≡ none
          → exec_op crypto s q.op_code (operand_bytes q.operand) tx tx_in_idx q.pc start stack
            ≡ err x
          → step crypto s tx tx_in_idx pc start stack ≡ err x)
        e (step-fail pc start stack x)

  pub step-failure :
      (pc start : ℕ) (stack : Stack) (x : Error)
      → (parse_next_op s pc).failure ≡ some (failed x)
      → step crypto s tx tx_in_idx pc start stack ≡ err x
  unfolding step
  step-failure pc start stack x bad = rw (step, bad)

  pub eval_loop-more :
      (fuel pc start : ℕ) (stack : Stack) (r : ℕ × ℕ × Stack)
      → pc < length s
      → step crypto s tx tx_in_idx pc start stack ≡ ok r
      → eval_loop crypto (suc fuel) s tx tx_in_idx pc start stack
        ≡ eval_loop crypto fuel s tx tx_in_idx r.0 r.1 r.2
  unfolding eval_loop
  eval_loop-more fuel pc start stack r h e = rw (eval_loop, lt→ltb pc (length s) h, e)

  pub eval_loop-err :
      (fuel pc start : ℕ) (stack : Stack) (x : Error)
      → pc < length s
      → step crypto s tx tx_in_idx pc start stack ≡ err x
      → eval_loop crypto (suc fuel) s tx tx_in_idx pc start stack ≡ err x
  unfolding eval_loop
  eval_loop-err fuel pc start stack x h e = rw (eval_loop, lt→ltb pc (length s) h, e)

  pub eval_loop-over :
      (fuel pc start : ℕ) (stack : Stack)
      → length s ≤ pc
      → eval_loop crypto fuel s tx tx_in_idx pc start stack ≡ ok stack
  unfolding eval_loop
  eval_loop-over zero pc start stack h = rw (eval_loop, le→ltb pc (length s) h)
  eval_loop-over (suc fuel) pc start stack h = rw (eval_loop, le→ltb pc (length s) h)
