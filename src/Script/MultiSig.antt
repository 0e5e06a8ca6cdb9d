-- ===== src/Script/MultiSig.antt =====
-- script/script.go, execOp: OPCHECKMULTISIG and OPCHECKMULTISIGVERIFY. The counter `i` and the
-- indexes are ints, given by their bit patterns. A signature check is a function of the operands.
pub mod Greedy
pub mod Loop
pub mod Check
pub mod Overflow
pub mod Ends
mod Tests
use boxd.Prelude.{
  ℕ, zero, suc, ◌+◌, ◌-◌, Bool, true, false, ◌&&◌, List, [], ◌∷◌, ltb, ◌==◌, if◌then◌else◌,
}
use boxd.Prelude.Words.{add64, sub64, int_lt}
use boxd.Prelude.Result.{Result, ok, err, ◌>>=◌}
use boxd.Script.Error.{Error, invalid_stack_operation, script_signature_verify_fail, count_negative}
use boxd.Script.Opcode.{OpCode, op_checksigverify}
use boxd.Script.Stack.{
  Operand, Stack, operand_true, operand_false, operand_int, size, push, pop, top_n,
}

-- for ; n > 0; n-- { stack.pop() }
pub pops : ℕ → Stack → Stack
pops zero stack = stack
pops (suc n) stack = pops n (pop stack)

-- The signature at `sig_idx` is tried against the key at `pub_key_idx`; a key is used once.
-- A round takes a key, and a loop that goes on has as many keys as signatures left, so that
-- `pub_key_count` rounds are enough.
pub multi_sig_loop : (Operand → Operand → Bool) → Stack → ℕ → Bool → ℕ → ℕ → ℕ → ℕ → Bool
multi_sig_loop verify stack zero is_verified pub_key_count sig_count pub_key_idx sig_idx =
    is_verified
multi_sig_loop verify stack (suc fuel) is_verified pub_key_count sig_count pub_key_idx sig_idx =
    let matches = verify (top_n stack sig_idx) (top_n stack pub_key_idx) in
    let sig_count' = if matches then sig_count - 1 else sig_count in
    let sig_idx' = if matches then add64 sig_idx 1 else sig_idx in
    let rest =
      multi_sig_loop verify stack fuel
        (if ltb (pub_key_count - 1) sig_count' then false else is_verified) (pub_key_count - 1)
        sig_count' (add64 pub_key_idx 1) sig_idx' in
    if is_verified && ltb 0 sig_count then rest else is_verified

-- The result of a check on the stack, and the verifying form's own test. The source compares with
-- OPCHECKSIGVERIFY here, in the code of OPCHECKMULTISIG and OPCHECKMULTISIGVERIFY.
unfoldable pub finish_multi_sig : OpCode → Bool → Stack → Result Error Stack
finish_multi_sig op_code is_verified stack =
    let stack' = push (if is_verified then operand_true else operand_false) stack in
    if op_code == op_checksigverify
    then if is_verified then ok (pop stack') else err script_signature_verify_fail
    else ok stack'

module _ (verify : Operand → Operand → Bool) where
  -- From the signature count on; `i` is its index.
  unfoldable pub multi_sig_tail : OpCode → Stack → ℕ → ℕ → Result Error Stack
  unfolding finish_multi_sig multi_sig_loop pops
  multi_sig_tail op_code stack pub_key_count i = do
    sig_count ← operand_int (top_n stack i)
    if int_lt sig_count 0
        then err count_negative
        else if int_lt pub_key_count sig_count
        then err script_signature_verify_fail
        else let sig_idx = add64 i 1 in
          let past = add64 sig_idx sig_count in
          if int_lt (size stack) (sub64 past 1)
          then err invalid_stack_operation
          else finish_multi_sig op_code
              (multi_sig_loop verify stack pub_key_count true pub_key_count sig_count 2 sig_idx)
              (pops (if int_lt 1 past then past - 1 else 0) stack)

  unfoldable pub check_multi_sig : OpCode → Stack → Result Error Stack
  unfolding multi_sig_tail
  check_multi_sig op_code stack = if ltb (size stack) 1 then err invalid_stack_operation else do
    pub_key_count ← operand_int (top_n stack 1)
    if int_lt pub_key_count 0
        then err count_negative
        else if int_lt (size stack) (add64 2 pub_key_count)
        then err invalid_stack_operation
        else multi_sig_tail op_code stack pub_key_count (add64 2 pub_key_count)
