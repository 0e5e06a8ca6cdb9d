-- ===== src/Script/MultiSig/Ends.antt =====
-- The multisignature check ends with a stack or an error.
use boxd.Prelude.{ℕ, Bool}
use boxd.Prelude.Ends.{Ends, ends_rules}
use boxd.Script.Opcode.{OpCode}
use boxd.Script.Stack.{Operand, Stack, operand_int}
use boxd.Script.MultiSig.{finish_multi_sig, multi_sig_tail, check_multi_sig}

Ends-operand_int : (o : Operand) → Ends (operand_int o)
unfolding operand_int
Ends-operand_int o = search ends_rules

Ends-finish_multi_sig :
    (op : OpCode) (r : Bool) (stack : Stack) → Ends (finish_multi_sig op r stack)
unfolding finish_multi_sig
Ends-finish_multi_sig op r stack = search ends_rules

module _ (verify : Operand → Operand → Bool) (op : OpCode) (stack : Stack) where
  Ends-multi_sig_tail : (keys i : ℕ) → Ends (multi_sig_tail verify op stack keys i)
  unfolding multi_sig_tail
  Ends-multi_sig_tail keys i = search (ends_rules, Ends-operand_int, Ends-finish_multi_sig)

  pub Ends-check_multi_sig : Ends (check_multi_sig verify op stack)
  unfolding check_multi_sig
  Ends-check_multi_sig = search (ends_rules, Ends-operand_int, Ends-multi_sig_tail) depth 8
