-- ===== src/Script/Reader.antt =====
-- script/script.go: getNthOp, and the words that are read with it. A nil operand is an empty one.
pub mod Cuts
use boxd.Prelude.{
  ℕ, zero, suc, Bool, Option, none, some, List, [], length, take, ltb, ◌==◌, if◌then◌else◌,
}
use boxd.Prelude.Result.{Result, ok, err, panic, ◌>>=◌}
use boxd.Script.Builder.{Script}
use boxd.Script.Bytes.{uint}
use boxd.Script.Error.{Error, stop, operand_size, invalid_pk_hash}
use boxd.Script.Interp.{operand_bytes}
use boxd.Script.Opcode.{OpCode}
use boxd.Script.Parser.{parse_next_op}
use boxd.Script.Stack.{Operand}

-- The next opcode, its operand and the counter behind it.
pub next_op : Script → ℕ → Result Error (OpCode × Operand × ℕ)
next_op s pc =
    let p = parse_next_op s pc in
    elim p.failure [ some e ↦ stop e | none ↦ ok (p.op_code, operand_bytes p.operand, p.pc) ]

unfoldable pub get_nth_op : Script → ℕ → ℕ → Result Error (OpCode × Operand × ℕ)
unfolding next_op
get_nth_op s pc zero = next_op s pc
get_nth_op s pc (suc n) = do (op_code, operand, new_pc) ← next_op s pc; get_nth_op s new_pc n

-- readUint64 for 8 bytes and readUint32 for 4.
unfoldable pub read_uint : ℕ → Script → ℕ → Result Error (ℕ × ℕ)
read_uint k s pc = do
  (op_code, operand, new_pc) ← get_nth_op s pc 0
  if length operand == k then ok (uint operand, new_pc) else err operand_size

-- binary.LittleEndian.Uint64 for 8 bytes and Uint32 for 4: a shorter slice is out of range.
unfoldable pub word : ℕ → Operand → Result Error ℕ
word k operand = if ltb (length operand) k then panic else ok (uint (take k operand))

-- The hash of an address, of exactly 20 bytes.
unfoldable pub address_from_hash : Operand → Result Error (List ℕ)
address_from_hash hash = if length hash == 20 then ok hash else err invalid_pk_hash
