-- ===== src/Script/Parser/Tests.antt =====
-- The theorems on operands at concrete scripts.
use boxd.Prelude.{
  ℕ, ◌+◌, ◌%◌, ◌^◌, ◌≡◌, none, some, List, [], ◌∷◌, ◌++◌, length, take, replicate, length-replicate,
  arith,
}
use boxd.Script.Builder.{add_operand}
use boxd.Script.Opcode.{op_pushdata4, op_dup}
use boxd.Script.Parser.{parse_next_op}
use boxd.Script.Parser.PushData.{
  push_op_code, parse_next_op-add_operand, parse_next_op-add_operand_long,
}

abbrev some_operand : List ℕ
some_operand = 7 ∷ 8 ∷ 9 ∷ []

parse_next_op-add_operand_example :
    parse_next_op (add_operand (op_dup ∷ []) some_operand ++ (op_dup ∷ [])) 1
    ≡ record { op_code = 3; operand = some some_operand; pc = 5; failure = none }
unfolding push_op_code add_operand
parse_next_op-add_operand_example =
    parse_next_op-add_operand (op_dup ∷ []) some_operand (op_dup ∷ []) (omega arith)

-- 0x10002 bytes.
abbrev long_operand : List ℕ
long_operand = replicate 0x10002 0

parse_next_op-add_operand_long_example :
    parse_next_op (add_operand [] long_operand ++ []) 0 ≡ record {
      op_code = op_pushdata4;
      operand = some (take (length long_operand % 2 ^ 16) long_operand);
      pc = 0 + 5 + length long_operand % 2 ^ 16;
      failure = none;
    }
parse_next_op-add_operand_long_example =
    parse_next_op-add_operand_long [] long_operand []
      (omega (arith, length-replicate {A = ℕ} 0x10002 0))
