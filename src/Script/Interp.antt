-- ===== src/Script/Interp.antt =====
-- script/script.go: execOp, evaluate and Validate. The state of a run is the stack, the counter and
-- the place where the locking script starts.
pub mod Termination
pub mod Steps
pub mod Advance
pub mod PayToKey
pub mod MultiSigVerify
mod Tests
use boxd.Prelude.{
  ℕ, zero, suc, ◌+◌, ◌-◌, ◌*◌, ◌%◌, ◌^◌, ◌≤◌, Bool, true, false, not, ◌&&◌, ◌||◌, Option, none,
  some, List, [], ◌∷◌, ◌++◌, length, drop, bytes_equal, ltb, leb, ◌==◌, if◌then◌else◌,
}
use boxd.Prelude.Words.{int_lt, int_le}
use boxd.Prelude.Result.{Result, ok, err, panic, out_of_fuel, ◌>>=◌, ◌>>◌}
use boxd.Types.Transaction.{Transaction}
use boxd.Script.Bytes.{big_of_bytes, bytes_of_big}
use boxd.Script.Builder.{Script, add_op_code, add_operand, add_script}
use boxd.Script.Error.{
  Error, Fault, failed, out_of_range, stop, invalid_stack_operation, bad_opcode,
  script_equal_verify, script_signature_verify_fail, encounter_op_return,
  script_lock_time_verify_fail,
}
use boxd.Script.MultiSig.{check_multi_sig}
use boxd.Script.Opcode.{
  OpCode, op_pushdata4, op_reserved, op_1, op_16, op_return, op_drop, op_dup, op_equal,
  op_equalverify, op_add, op_sub, op_hash160, op_codeseparator, op_checksig, op_checksigverify,
  op_checkmultisig, op_checkmultisigverify, op_checklocktimeverify,
}
use boxd.Script.Parser.{Parsed, parse_next_op}
use boxd.Script.Signature.{Crypto, verify_sig}
use boxd.Script.Standard.{is_pay_to_script_hash}
use boxd.Script.Stack.{
  Operand, Stack, operand_true, operand_false, size, push, pop, top_n, validate_top,
}

abbrev pub lock_time_threshold : ℕ
lock_time_threshold = 500_000_000

-- The two int64 are given by their bit patterns.
unfoldable pub check_lock_time : ℕ → ℕ → Bool
check_lock_time lock_time tx_lock_time =
    if not (
      (int_lt lock_time lock_time_threshold && int_lt tx_lock_time lock_time_threshold)
      || (int_le lock_time_threshold lock_time && int_le lock_time_threshold tx_lock_time))
    then false
    else int_le lock_time tx_lock_time

-- The bytes of op1 - op2, whose sign is dropped.
pub distance : ℕ → ℕ → ℕ
distance a b = if ltb a b then b - a else a - b

-- The operand of OP1NEGATE and OP1 to OP16: the bytes of opcode - OP1 + 1, whose sign is dropped.
pub small_int : OpCode → Operand
unfolding distance bytes_of_big
small_int op_code = bytes_of_big (distance (op_code + 1) op_1)

pub exec_drop : Stack → Result Error Stack
exec_drop stack = if ltb (size stack) 1 then err invalid_stack_operation else ok (pop stack)

pub exec_dup : Stack → Result Error Stack
exec_dup stack =
    if ltb (size stack) 1 then err invalid_stack_operation else ok (push (top_n stack 1) stack)

pub exec_arith : OpCode → Stack → Result Error Stack
unfolding distance bytes_of_big big_of_bytes
exec_arith op_code stack =
    if ltb (size stack) 2
    then err invalid_stack_operation
    else let op1 = big_of_bytes (top_n stack 2) in
      let op2 = big_of_bytes (top_n stack 1) in
      ok (
        push (bytes_of_big (if op_code == op_add then op1 + op2 else distance op1 op2))
          (pop (pop stack)))

-- A Boolean result on the stack, which the verifying form takes off or fails on.
pub finish_check : Bool → Error → Bool → Stack → Result Error Stack
finish_check verifies e result stack =
    let stack' = push (if result then operand_true else operand_false) stack in
    if verifies then if result then ok (pop stack') else err e else ok stack'

pub exec_equal : OpCode → Stack → Result Error Stack
unfolding finish_check bytes_equal
exec_equal op_code stack =
    if ltb (size stack) 2
    then err invalid_stack_operation
    else finish_check (op_code == op_equalverify) script_equal_verify
        (bytes_equal (top_n stack 2) (top_n stack 1)) (pop (pop stack))

pub exec_check_lock_time : ℕ → Stack → Result Error Stack
unfolding check_lock_time big_of_bytes
exec_check_lock_time tx_lock_time stack =
    if ltb (size stack) 1
    then err invalid_stack_operation
    else if check_lock_time (big_of_bytes (top_n stack 1) % 2 ^ 64) tx_lock_time
    then ok (pop stack)
    else err script_lock_time_verify_fail

-- A nil operand is an empty one.
abbrev pub operand_bytes : Option Operand → Operand
operand_bytes none = []
operand_bytes (some o) = o

-- A read whose error is not looked at; a panic ends the caller too.
unfoldable pub or_panic : Parsed → Result Error Parsed
or_panic p = elim p.failure [
  | none ↦ ok p
  | some e ↦ elim e [ failed x ↦ ok p | out_of_range ↦ panic ]
]

-- The unlocking and the locking script, with an OPCODESEPARATOR between them.
unfoldable pub cat_script : Script → Script → Script
unfolding add_script add_op_code
cat_script script_sig script_pub_key =
    add_script (add_op_code (add_script [] script_sig) op_codeseparator) script_pub_key

-- (*s)[*scriptPubKeyStart:], the script from the last OPCODESEPARATOR on.
unfoldable pub locking_script : Script → ℕ → Result Error Script
locking_script s start = if leb start (length s) then ok (drop start s) else panic

module _ (crypto : Crypto) where
  open crypto use {hash160}

  pub exec_hash160 : Stack → Result Error Stack
  exec_hash160 stack =
      if ltb (size stack) 1
      then err invalid_stack_operation
      else ok (push (hash160 (top_n stack 1)) (pop stack))

  pub exec_check_sig : Script → Transaction → ℕ → OpCode → ℕ → Stack → Result Error Stack
  unfolding finish_check locking_script
  exec_check_sig s tx tx_in_idx op_code script_pub_key_start stack =
      if ltb (size stack) 2 then err invalid_stack_operation else do
        script_pub_key ← locking_script s script_pub_key_start
        finish_check (op_code == op_checksigverify) script_signature_verify_fail
            (verify_sig crypto (top_n stack 2) (top_n stack 1) script_pub_key tx tx_in_idx)
            (pop (pop stack))

  -- The source cuts the script after the counts are read; here it is cut first, so that a panic of
  -- the source is one here.
  pub exec_check_multi_sig : Script → Transaction → ℕ → OpCode → ℕ → Stack → Result Error Stack
  unfolding check_multi_sig locking_script
  exec_check_multi_sig s tx tx_in_idx op_code start stack = do
    script_pub_key ← locking_script s start
    check_multi_sig (λ sig key. verify_sig crypto sig key script_pub_key tx tx_in_idx) op_code stack

  -- The stack after an operation that keeps the start of the locking script.
  pub exec_stack_op : Script → Transaction → ℕ → OpCode → ℕ → Stack → Result Error Stack
  unfolding exec_drop exec_dup exec_arith exec_equal exec_hash160 exec_check_sig
      exec_check_multi_sig exec_check_lock_time
  exec_stack_op s tx tx_in_idx op_code start stack =
      if op_code == op_return
      then err encounter_op_return
      else if op_code == op_drop
      then exec_drop stack
      else if op_code == op_dup
      then exec_dup stack
      else if op_code == op_add || op_code == op_sub
      then exec_arith op_code stack
      else if op_code == op_equal || op_code == op_equalverify
      then exec_equal op_code stack
      else if op_code == op_hash160
      then exec_hash160 stack
      else if op_code == op_checksig || op_code == op_checksigverify
      then exec_check_sig s tx tx_in_idx op_code start stack
      else if op_code == op_checkmultisig || op_code == op_checkmultisigverify
      then exec_check_multi_sig s tx tx_in_idx op_code start stack
      else if op_code == op_checklocktimeverify
      then exec_check_lock_time tx.lock_time stack
      else err bad_opcode

  unfoldable pub exec_op :
      Script → OpCode → Operand → Transaction → ℕ → ℕ → ℕ → Stack → Result Error (ℕ × Stack)
  unfolding exec_stack_op small_int
  exec_op s op_code push_data tx tx_in_idx pc start stack =
      if leb op_code op_pushdata4
      then ok (start, push push_data stack)
      else if leb op_code op_16 && not (op_code == op_reserved)
      then ok (start, push (small_int op_code) stack)
      else if op_code == op_codeseparator
      then ok (pc, stack)
      else do stack' ← exec_stack_op s tx tx_in_idx op_code start stack; ok (start, stack')

  -- One round of the loop of `evaluate`: the new counter, start and stack.
  pub step : Script → Transaction → ℕ → ℕ → ℕ → Stack → Result Error (ℕ × ℕ × Stack)
  unfolding exec_op
  step s tx tx_in_idx pc start stack =
      let p = parse_next_op s pc in
      elim p.failure [
        | some e ↦ stop e
        | none ↦ do
          (start', stack') ←
              exec_op s p.op_code (operand_bytes p.operand) tx tx_in_idx p.pc start stack
          ok (p.pc, start', stack')
      ]

  -- for pc < scriptLen, with at most `fuel` rounds.
  pub eval_loop : ℕ → Script → Transaction → ℕ → ℕ → ℕ → Stack → Result Error Stack
  unfolding step
  eval_loop zero s tx tx_in_idx pc start stack = if ltb pc (length s) then out_of_fuel else ok stack
  eval_loop (suc fuel) s tx tx_in_idx pc start stack = elim (ltb pc (length s)) [
    | true ↦ do
      (pc', start', stack') ← step s tx tx_in_idx pc start stack
      eval_loop fuel s tx tx_in_idx pc' start' stack'
    | false ↦ ok stack
  ]

  -- A round moves the counter, so as many rounds as the script has bytes are enough.
  unfoldable pub evaluate : Script → Transaction → ℕ → Result Error (Unit {0})
  unfolding eval_loop validate_top
  evaluate s tx tx_in_idx = do
    stack ← eval_loop (length s) s tx tx_in_idx 0 0 []
    validate_top stack

  unfoldable pub validate : Script → Script → Transaction → ℕ → Result Error (Unit {0})
  unfolding evaluate cat_script add_operand or_panic
  validate script_sig script_pub_key tx tx_in_idx = do
    evaluate (cat_script script_sig script_pub_key) tx tx_in_idx
    if not (is_pay_to_script_hash script_pub_key) then ok tt else do
      first ← or_panic (parse_next_op script_sig 0)
      second ← or_panic (parse_next_op script_sig first.pc)
      evaluate
          (cat_script (add_operand [] (operand_bytes first.operand)) (operand_bytes second.operand))
          tx tx_in_idx
