-- ===== src/Script/Parser.antt =====
-- script/script.go: reading a script opcode by opcode.
pub mod PushData
pub mod Moves
mod Tests
use boxd.Prelude.{
  ℕ, zero, suc, ◌+◌, ◌-◌, Bool, ◌||◌, Option, none, some, List, [], ◌∷◌, ◌++◌, length, get_elem?,
  take, slice?, ltb, leb, ◌==◌, if◌then◌else◌,
}
use boxd.Script.Bytes.{uint}
use boxd.Script.Error.{
  Error, Fault, failed, out_of_range, script_bound, no_enough_data_op_pushdata1,
  no_enough_data_op_pushdata2, no_enough_data_op_pushdata4,
}
use boxd.Script.Opcode.{
  OpCode, op_pushdata1, op_pushdata2, op_pushdata4, op_checksig, op_checksigverify,
  op_checkmultisig, op_checkmultisigverify,
}
use boxd.Script.Builder.{Script}

-- The four results of `parseNextOp`: some callers go on with the others when there is an error.
pub record Parsed : Type 0 where
  pub op_code : OpCode
  pub operand : Option (List ℕ)
  pub pc : ℕ
  pub failure : Option Fault

unfoldable pub missing_size : OpCode → ℕ → Error → Parsed
missing_size op_code pc e = record {
  op_code = op_code;
  operand = none;
  pc = pc;
  failure = some (failed e);
}

pub panicked : OpCode → ℕ → Parsed
panicked op_code pc = record {
  op_code = op_code;
  operand = none;
  pc = pc;
  failure = some out_of_range;
}

-- The end of `parseNextOp`, once the size of the operand is known.
pub read_operand : Script → OpCode → ℕ → ℕ → Parsed
unfolding missing_size panicked slice?
read_operand s op_code pc operand_size =
    if ltb (length s - pc) operand_size
    then missing_size op_code pc script_bound
    else elim (slice? s pc (pc + operand_size)) [
      | none ↦ panicked op_code pc
      | some o ↦ record {
        op_code = op_code;
        operand = some o;
        pc = pc + operand_size;
        failure = none;
      }
    ]

-- The size of an operand in one byte, in two, and in four, of which the code reads the first two.
pub read_data1 : Script → OpCode → ℕ → Parsed
unfolding read_operand missing_size panicked
read_data1 s op_code pc =
    if ltb (length s - pc) 1
    then missing_size op_code pc no_enough_data_op_pushdata1
    else elim (get_elem? s pc) [
      | none ↦ panicked op_code pc
      | some size ↦ read_operand s op_code (pc + 1) size
    ]

pub read_data2 : Script → OpCode → ℕ → Parsed
unfolding read_operand missing_size panicked slice? uint
read_data2 s op_code pc =
    if ltb (length s - pc) 2
    then missing_size op_code pc no_enough_data_op_pushdata2
    else elim (slice? s pc (pc + 2)) [
      | none ↦ panicked op_code pc
      | some size ↦ read_operand s op_code (pc + 2) (uint size)
    ]

pub read_data4 : Script → OpCode → ℕ → Parsed
unfolding read_operand missing_size panicked slice? uint
read_data4 s op_code pc =
    if ltb (length s - pc) 4
    then missing_size op_code pc no_enough_data_op_pushdata4
    else elim (slice? s pc (pc + 4)) [
      | none ↦ panicked op_code pc
      | some size ↦ read_operand s op_code (pc + 4) (uint (take 2 size))
    ]

unfoldable pub parse_next_op : Script → ℕ → Parsed
unfolding read_operand read_data1 read_data2 read_data4 missing_size panicked
parse_next_op s pc0 =
    if leb (length s) pc0 then missing_size 0 pc0 script_bound else elim (get_elem? s pc0) [
      | none ↦ panicked 0 pc0
      | some op_code ↦
          let pc = pc0 + 1 in
          if ltb op_pushdata4 op_code
          then record { op_code = op_code; operand = none; pc = pc; failure = none }
          else if ltb op_code op_pushdata1
          then read_operand s op_code pc op_code
          else if op_code == op_pushdata1
          then read_data1 s op_code pc
          else if op_code == op_pushdata2
          then read_data2 s op_code pc
          else read_data4 s op_code pc
    ]

-- An element that `parse` returns; a panic would stand at the end as an element too.
pub data Element : Type 0 where
  operand : List ℕ → Element
  op_code : OpCode → Element
  failure : Fault → Element

element : Parsed → Element
element p = elim p.operand [ some o ↦ operand o | none ↦ op_code p.op_code ]

-- An opcode moves `pc`, so `length s - pc` rounds are enough.
parse_loop : ℕ → Script → ℕ → List Element
unfolding element
parse_loop zero s pc = []
parse_loop (suc fuel) s pc =
    let p = parse_next_op s pc in
    let rest = element p ∷ parse_loop fuel s p.pc in
    if ltb pc (length s) then elim p.failure [ some e ↦ failure e ∷ [] | none ↦ rest ] else []

unfoldable pub parse : Script → List Element
unfolding parse_loop
parse s = parse_loop (length s) s 0

count_sig_ops : List Element → ℕ
count_sig_ops [] = 0
count_sig_ops (op_code v ∷ rest) =
    (if v == op_checksig
        || (v == op_checksigverify || (v == op_checkmultisig || v == op_checkmultisigverify))
      then 1
      else 0)
    + count_sig_ops rest
count_sig_ops (_ ∷ rest) = count_sig_ops rest

unfoldable pub get_sig_op_count : Script → ℕ
unfolding parse count_sig_ops
get_sig_op_count s = count_sig_ops (parse s)
