-- ===== src/Script/MultiSig/Overflow.antt =====
-- The counter of the multisignature check is an int, and the key count is added to it before any
-- test of its size.
use boxd.Prelude.{
  ℕ, zero, suc, ◌+◌, ◌^◌, ◌≤◌, ◌<◌, ◌≡◌, ◌≢◌, refl, Bool, true, false, ◌∷◌, length, le→ltb, ne→==,
  arith,
}
use boxd.Prelude.Words.{add64, sub64, int_lt}
use boxd.Prelude.Result.{ok}
use boxd.Script.Bytes.{big_of_bytes}
use boxd.Script.Opcode.{OpCode, op_checksigverify}
use boxd.Script.Stack.{Operand, Stack, operand_true, operand_int, size, push, top_n}
use boxd.Script.Stack.Access.{
  int_lt-false, int_lt-negative, top_n-in, top_n-negative, operand_int-ok,
}
use boxd.Script.MultiSig.{pops, multi_sig_loop, finish_multi_sig, multi_sig_tail, check_multi_sig}

loop_no_sigs :
    (verify : Operand → Operand → Bool) (stack : Stack) (fuel keys key_idx sig_idx : ℕ)
    → multi_sig_loop verify stack fuel true keys 0 key_idx sig_idx ≡ true
unfolding multi_sig_loop
loop_no_sigs verify stack zero keys key_idx sig_idx = refl
loop_no_sigs verify stack (suc fuel) keys key_idx sig_idx = refl

-- An index that wrapped reads no operand, which counts as no signature.
tail_wrapped :
    (verify : Operand → Operand → Bool) (op_code : OpCode) (stack : Stack) (keys i : ℕ)
    → op_code ≢ op_checksigverify
    → keys < 2 ^ 63
    → 2 ^ 63 ≤ i
    → i < 2 ^ 63 + 2
    → length stack < 2 ^ 63
    → multi_sig_tail verify op_code stack keys i ≡ ok (operand_true ∷ stack)
unfolding multi_sig_tail finish_multi_sig pops size push
tail_wrapped verify op_code stack keys i ne hk lo hi small =
    let none : operand_int (top_n stack i) ≡ ok 0 =
      rw (top_n-negative stack i lo (omega arith)) (unfold operand_int big_of_bytes in refl) in
    let next : add64 i 1 ≡ i + 1 = omega arith in
    let past : add64 (i + 1) 0 ≡ i + 1 = omega arith in
    let last : sub64 (i + 1) 1 ≡ i = omega arith in
    let no_pop : int_lt 1 (i + 1) ≡ false =
      int_lt-negative 1 (i + 1) (omega arith) (omega arith) (omega arith) in
    rw (none) (
      rw (
        int_lt-false keys 0 (omega arith) hk,
        next,
        past,
        last,
        int_lt-negative (length stack) i small lo (omega arith),
        no_pop,
        loop_no_sigs verify stack keys keys 2 (i + 1),
        ne→== op_code op_checksigverify ne,
      ))

-- With the greatest int64 or the one below it as the key count on top of the stack, the check
-- pushes true, for every signature check: no signature and no key is read, and the stack below
-- stays. The opcode is any but OPCHECKSIGVERIFY, and the stack is shorter than 2 ^ 62.
pub check_multi_sig-overflow :
    (verify : Operand → Operand → Bool) (op_code : OpCode) (count : Operand) (stack : Stack)
    → op_code ≢ op_checksigverify
    → 2 ^ 63 ≤ big_of_bytes count + 2
    → big_of_bytes count < 2 ^ 63
    → length stack < 2 ^ 62
    → check_multi_sig verify op_code (count ∷ stack) ≡ ok (operand_true ∷ count ∷ stack)
unfolding check_multi_sig size
check_multi_sig-overflow verify op_code count stack ne lo hi small =
    let n = big_of_bytes count in
    let top : operand_int (top_n (count ∷ stack) 1) ≡ ok n =
      rw (top_n-in (count ∷ stack) 1 (omega arith) (omega arith) (omega arith))
        (operand_int-ok count hi) in
    let index : add64 2 n ≡ n + 2 = omega arith in
    rw (le→ltb (suc (length stack)) 1 (omega arith), top)
      (rw
        (
          int_lt-false n 0 (omega arith) hi,
          index,
          int_lt-negative (suc (length stack)) (n + 2) (omega arith) lo (omega arith),
        )
        (tail_wrapped verify op_code (count ∷ stack) n (n + 2) ne hi lo (omega arith)
          (omega arith)))
