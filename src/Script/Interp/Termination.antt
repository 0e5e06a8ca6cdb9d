-- ===== src/Script/Interp/Termination.antt =====
-- Every run of a script ends with success or with an error of the package.
use boxd.Prelude.{
  ℕ, zero, suc, ◌+◌, ◌≤◌, ◌<◌, ◌≡◌, ◌⊎◌, inl, inr, Bool, true, false, not, ◌&&◌, subst, [], length,
  drop, leb, le→leb, ◌==◌, if◌then◌else◌, arith,
}
use boxd.Prelude.Result.{Result, ok, err}
use boxd.Types.Transaction.{Transaction}
use boxd.Script.Builder.{Script}
use boxd.Script.Error.{Error, encounter_op_return, bad_opcode}
use boxd.Prelude.Ends.{
  Ends, returns, fails, Ends-if, ends_rules, Ends-cases, Ends-bind, ok-bind, ok-injective,
}
use boxd.Script.MultiSig.Ends.{Ends-check_multi_sig}
use boxd.Script.Opcode.{OpCode, op_pushdata4, op_16, op_reserved, op_codeseparator}
use boxd.Script.Parser.{Parsed, missing_size, parse_next_op}
use boxd.Script.Parser.Moves.{Reads, stops, reads, Reads-parse_next_op, parse_next_op-cases}
use boxd.Script.Signature.{Crypto, verify_sig}
use boxd.Script.Interp.Steps.{
  step-run, step-fail, step-failure, eval_loop-more, eval_loop-err, eval_loop-over,
}
use native.Mathlib.Decide.{dec_lt}
use boxd.Script.Stack.{Operand, Stack, validate_top}
use boxd.Script.Interp.{
  operand_bytes, or_panic, locking_script, finish_check, exec_drop, exec_dup, exec_arith,
  exec_equal, exec_check_lock_time, exec_hash160, exec_check_sig, exec_check_multi_sig,
  exec_stack_op, exec_op, step, eval_loop, evaluate, validate,
}

Ends-finish_check :
    (v : Bool) (e : Error) (r : Bool) (stack : Stack) → Ends (finish_check v e r stack)
unfolding finish_check
Ends-finish_check v e r stack = search ends_rules

Ends-exec_drop : (stack : Stack) → Ends (exec_drop stack)
unfolding exec_drop
Ends-exec_drop stack = search ends_rules

Ends-exec_dup : (stack : Stack) → Ends (exec_dup stack)
unfolding exec_dup
Ends-exec_dup stack = search ends_rules

Ends-exec_arith : (op : OpCode) (stack : Stack) → Ends (exec_arith op stack)
unfolding exec_arith
Ends-exec_arith op stack = search ends_rules

Ends-exec_equal : (op : OpCode) (stack : Stack) → Ends (exec_equal op stack)
unfolding exec_equal
Ends-exec_equal op stack = search (ends_rules, Ends-finish_check)

Ends-exec_check_lock_time : (t : ℕ) (stack : Stack) → Ends (exec_check_lock_time t stack)
unfolding exec_check_lock_time
Ends-exec_check_lock_time t stack = search ends_rules

Ends-validate_top : (stack : Stack) → Ends (validate_top stack)
unfolding validate_top
Ends-validate_top stack = search ends_rules

module _ (crypto : Crypto) (s : Script) (tx : Transaction) (tx_in_idx : ℕ) where
  Ends-exec_hash160 : (stack : Stack) → Ends (exec_hash160 crypto stack)
  unfolding exec_hash160
  Ends-exec_hash160 stack = search ends_rules

  -- The locking script starts inside the script.
  Ends-locking_script : (start : ℕ) → start ≤ length s → Ends (locking_script s start)
  unfolding locking_script
  Ends-locking_script start h = rw (le→leb start (length s) h) (returns (drop start s))

  Ends-exec_check_sig :
      (op : OpCode) (start : ℕ) (stack : Stack)
      → start ≤ length s
      → Ends (exec_check_sig crypto s tx tx_in_idx op start stack)
  unfolding exec_check_sig
  Ends-exec_check_sig op start stack h = search (ends_rules, Ends-finish_check, Ends-locking_script)

  Ends-exec_check_multi_sig :
      (op : OpCode) (start : ℕ) (stack : Stack)
      → start ≤ length s
      → Ends (exec_check_multi_sig crypto s tx tx_in_idx op start stack)
  unfolding exec_check_multi_sig
  Ends-exec_check_multi_sig op start stack h =
      Ends-bind (locking_script s start) _ (Ends-locking_script start h) (λ lock.
        Ends-check_multi_sig (λ sig key. verify_sig crypto sig key lock tx tx_in_idx) op stack)

  Ends-exec_stack_op :
      (op : OpCode) (start : ℕ) (stack : Stack)
      → start ≤ length s
      → Ends (exec_stack_op crypto s tx tx_in_idx op start stack)
  unfolding exec_stack_op
  Ends-exec_stack_op op start stack h = Ends-if _ _ _ (fails encounter_op_return) (
      Ends-if _ _ _ (Ends-exec_drop stack) (
        Ends-if _ _ _ (Ends-exec_dup stack) (
          Ends-if _ _ _ (Ends-exec_arith op stack) (
            Ends-if _ _ _ (Ends-exec_equal op stack) (
              Ends-if _ _ _ (Ends-exec_hash160 stack) (
                Ends-if _ _ _ (Ends-exec_check_sig op start stack h) (
                  Ends-if _ _ _ (Ends-exec_check_multi_sig op start stack h) (
                    Ends-if _ _ _ (Ends-exec_check_lock_time tx.lock_time stack)
                      (fails bad_opcode)))))))))

  Ends-exec_op :
      (op : OpCode) (o : Operand) (pc start : ℕ) (stack : Stack)
      → start ≤ length s
      → Ends (exec_op crypto s op o tx tx_in_idx pc start stack)
  unfolding exec_op
  Ends-exec_op op o pc start stack h = search (ends_rules, Ends-exec_stack_op)

  -- The start of the locking script stays, or is the counter.
  exec_op-start :
      (op : OpCode) (o : Operand) (pc start : ℕ) (stack : Stack) (r : ℕ × Stack)
      → start ≤ length s
      → pc ≤ length s
      → exec_op crypto s op o tx tx_in_idx pc start stack ≡ ok r
      → r.0 ≤ length s
  unfolding exec_op
  exec_op-start op o pc start stack r hs hp =
      Starts-if _ (leb op op_pushdata4) _ _ (λ e. Starts-ok _ _ hs e)
        (Starts-if _ (leb op op_16 && not (op == op_reserved)) _ _ (λ e. Starts-ok _ _ hs e)
          (Starts-if _ (op == op_codeseparator) _ _ (λ e. Starts-ok _ _ hp e)
            (λ e.
              let (st, run, e) =
                ok-bind (exec_stack_op crypto s tx tx_in_idx op start stack) _ r e in
              Starts-ok _ _ hs e)))
    where
      Starts-ok :
          (q q' : ℕ × Stack)
          → q.0 ≤ length s
          → ◌≡◌ {A = Result Error (ℕ × Stack)} (ok q) (ok q')
          → q'.0 ≤ length s
      Starts-ok q q' h e = subst (λ t. t.0 ≤ length s) (ok-injective {E = Error} q q' e) h

      Starts-if :
          (q : ℕ × Stack) (b : Bool) (x y : Result Error (ℕ × Stack))
          → (x ≡ ok q → q.0 ≤ length s)
          → (y ≡ ok q → q.0 ≤ length s)
          → (if b then x else y) ≡ ok q
          → q.0 ≤ length s
      Starts-if q true x y hx hy = hx
      Starts-if q false x y hx hy = hy

  -- A round ends, and a round that succeeds moves the counter and keeps the locking script inside.
  step-ends :
      (pc start : ℕ) (stack : Stack)
      → start ≤ length s
      → ((r : ℕ × ℕ × Stack) × (step crypto s tx tx_in_idx pc start stack ≡ ok r)
          × (pc < r.0)
          × (r.1 ≤ length s))
        ⊎ ((e : Error) × (step crypto s tx tx_in_idx pc start stack ≡ err e))
  step-ends pc start stack h =
      let p = parse_next_op s pc in
      elim (parse_next_op-cases s pc) [
        | inl (good, moves, inside) ↦
            elim (Ends-cases _
              (Ends-exec_op p.op_code (operand_bytes p.operand) p.pc start stack h)) [
                | inl (r, e) ↦ inl (
                  (p.pc, r.0, r.1),
                  step-run crypto s tx tx_in_idx pc start stack r good e,
                  moves,
                  exec_op-start p.op_code (operand_bytes p.operand) p.pc start stack r h inside e,
                )
                | inr (x, e) ↦ inr (x, step-fail crypto s tx tx_in_idx pc start stack x good e)
              ]
        | inr (e, bad) ↦ inr (e, step-failure crypto s tx tx_in_idx pc start stack e bad)
      ]

  Ends-eval_loop :
      (fuel pc start : ℕ) (stack : Stack)
      → start ≤ length s
      → length s ≤ pc + fuel
      → Ends (eval_loop crypto fuel s tx tx_in_idx pc start stack)
  Ends-eval_loop zero pc start stack hs h =
      rw (eval_loop-over crypto s tx tx_in_idx zero pc start stack (omega arith)) (returns stack)
  Ends-eval_loop (suc fuel) pc start stack hs h = elim (dec_lt pc (length s)) [
    | yes more ↦ elim (step-ends pc start stack hs) [
      | inl (r, e, moves, inside) ↦
          rw (eval_loop-more crypto s tx tx_in_idx fuel pc start stack r more e)
            (Ends-eval_loop fuel r.0 r.1 r.2 inside (omega arith))
      | inr (x, e) ↦ rw (eval_loop-err crypto s tx tx_in_idx fuel pc start stack x more e) (fails x)
    ]
    | no over ↦
        rw (eval_loop-over crypto s tx tx_in_idx (suc fuel) pc start stack (omega arith))
          (returns stack)
  ]

  Ends-evaluate : Ends (evaluate crypto s tx tx_in_idx)
  unfolding evaluate
  Ends-evaluate =
      Ends-bind (eval_loop crypto (length s) s tx tx_in_idx 0 0 []) _
        (Ends-eval_loop (length s) 0 0 [] (omega arith) (omega arith)) (λ st. Ends-validate_top st)

-- The reads of a pay-to-script-hash spend, whose errors are not looked at.
Ends-or_panic : (s : Script) (pc : ℕ) → Ends (or_panic (parse_next_op s pc))
unfolding or_panic
Ends-or_panic s pc = by_read (parse_next_op s pc) (Reads-parse_next_op s pc)
  where
    by_read : (p : Parsed) → Reads s pc p → Ends (or_panic p)
    by_read _ (stops op pc' e) = unfold missing_size in returns _
    by_read _ (reads op pc' o moves inside) = returns _

Ends-validate :
    (crypto : Crypto) (script_sig script_pub_key : Script) (tx : Transaction) (tx_in_idx : ℕ)
    → Ends (validate crypto script_sig script_pub_key tx tx_in_idx)
unfolding validate
Ends-validate crypto script_sig script_pub_key tx tx_in_idx =
    search (ends_rules, Ends-evaluate, Ends-or_panic)

-- Whatever the bytes of the two scripts, `Validate` returns success or one of the package's errors:
-- it does not panic, since no index or slice of `parseNextOp` and no start of the locking script is
-- out of range, and each run of a script ends within as many rounds as the script has bytes.
pub validate_ends :
    (crypto : Crypto) (script_sig script_pub_key : Script) (tx : Transaction) (tx_in_idx : ℕ)
    → (validate crypto script_sig script_pub_key tx tx_in_idx ≡ ok tt)
      ⊎ ((e : Error) × (validate crypto script_sig script_pub_key tx tx_in_idx ≡ err e))
validate_ends crypto script_sig script_pub_key tx tx_in_idx =
    elim (Ends-cases _ (Ends-validate crypto script_sig script_pub_key tx tx_in_idx)) [
      | inl (a, e) ↦ inl e
      | inr x ↦ inr x
    ]
