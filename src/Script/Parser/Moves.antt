-- ===== src/Script/Parser/Moves.antt =====
-- A read of `parseNextOp` stays inside the script, and one that succeeds moves the counter.
use native.Mathlib.Decide.{dec_lt}
use boxd.Prelude.{
  ℕ, zero, suc, ◌+◌, ◌-◌, ◌<◌, ◌≤◌, ◌≡◌, refl, Bool, true, false, ◌⊎◌, inl, inr, Option, none, some,
  List, [], ◌∷◌, length, get_elem?, take, slice, slice?, ltb, lt→ltb, le→ltb, le→leb, lt→leb, ◌==◌,
  if◌then◌else◌, arith,
}
use boxd.Script.Builder.{Script}
use boxd.Script.Bytes.{uint}
use boxd.Script.Error.{
  Error, failed, script_bound, no_enough_data_op_pushdata1, no_enough_data_op_pushdata2,
  no_enough_data_op_pushdata4,
}
use boxd.Script.Opcode.{op_pushdata1, op_pushdata2, op_pushdata4}
use boxd.Script.Parser.{
  Parsed, read_operand, read_data1, read_data2, read_data4, missing_size, parse_next_op,
}

-- What a read from `pc` leaves: an error, or a counter past `pc` and not past the script's end. A
-- panic is neither.
pub data Reads (s : Script) (pc : ℕ) : Parsed → Type 0 where
  stops : (op pc' : ℕ) (e : Error) → Reads s pc (missing_size op pc' e)
  reads :
      (op pc' : ℕ) (o : Option (List ℕ))
      → pc < pc'
      → pc' ≤ length s
      → Reads s pc (record { op_code = op; operand = o; pc = pc'; failure = none })

Reads-if :
    (s : Script) (pc : ℕ) (b : Bool) (x y : Parsed)
    → Reads s pc x
    → Reads s pc y
    → Reads s pc (if b then x else y)
Reads-if s pc true x y hx hy = hx
Reads-if s pc false x y hx hy = hy

get_elem?-in : (s : List ℕ) (i : ℕ) → i < length s → (a : ℕ) × (get_elem? s i ≡ some a)
get_elem?-in [] i h = absurd (omega arith)
get_elem?-in (x ∷ s) zero h = (x, refl)
get_elem?-in (x ∷ s) (suc i) h = get_elem?-in s i (omega arith)

slice?-in : (s : List ℕ) (a b : ℕ) → a ≤ b → b ≤ length s → slice? s a b ≡ some (slice s a b)
unfolding slice?
slice?-in s a b h k = rw (le→leb a b h, le→leb b (length s) k) refl

module _ (s : Script) (op pc : ℕ) where
  Reads-read_operand :
      (pc' size : ℕ) → pc < pc' → pc' ≤ length s → Reads s pc (read_operand s op pc' size)
  unfolding read_operand
  Reads-read_operand pc' size h inside = elim (dec_lt (length s - pc') size) [
    | yes few ↦ rw (lt→ltb (length s - pc') size few) (stops op pc' script_bound)
    | no fits ↦
        rw
          (
            le→ltb (length s - pc') size (omega arith),
            slice?-in s pc' (pc' + size) (omega arith) (omega arith),
          )
          (reads op (pc' + size) _ (omega arith) (omega arith))
  ]

  -- Behind the opcode, the bytes of the size.
  Reads-read_data1 : pc < length s → Reads s pc (read_data1 s op (pc + 1))
  unfolding read_data1
  Reads-read_data1 h = elim (dec_lt (length s - (pc + 1)) 1) [
    | yes few ↦
        rw (lt→ltb (length s - (pc + 1)) 1 few) (stops op (pc + 1) no_enough_data_op_pushdata1)
    | no fits ↦
        let (size, e) = get_elem?-in s (pc + 1) (omega arith) in
        rw (le→ltb (length s - (pc + 1)) 1 (omega arith), e)
          (Reads-read_operand (pc + 1 + 1) size (omega arith) (omega arith))
  ]

  Reads-read_data2 : pc < length s → Reads s pc (read_data2 s op (pc + 1))
  unfolding read_data2
  Reads-read_data2 h = elim (dec_lt (length s - (pc + 1)) 2) [
    | yes few ↦
        rw (lt→ltb (length s - (pc + 1)) 2 few) (stops op (pc + 1) no_enough_data_op_pushdata2)
    | no fits ↦
        rw
          (
            le→ltb (length s - (pc + 1)) 2 (omega arith),
            slice?-in s (pc + 1) (pc + 1 + 2) (omega arith) (omega arith),
          )
          (Reads-read_operand (pc + 1 + 2) (uint (slice s (pc + 1) (pc + 1 + 2))) (omega arith)
            (omega arith))
  ]

  Reads-read_data4 : pc < length s → Reads s pc (read_data4 s op (pc + 1))
  unfolding read_data4
  Reads-read_data4 h = elim (dec_lt (length s - (pc + 1)) 4) [
    | yes few ↦
        rw (lt→ltb (length s - (pc + 1)) 4 few) (stops op (pc + 1) no_enough_data_op_pushdata4)
    | no fits ↦
        rw
          (
            le→ltb (length s - (pc + 1)) 4 (omega arith),
            slice?-in s (pc + 1) (pc + 1 + 4) (omega arith) (omega arith),
          )
          (Reads-read_operand (pc + 1 + 4) (uint (take 2 (slice s (pc + 1) (pc + 1 + 4))))
            (omega arith) (omega arith))
  ]

-- Each read of `parseNextOp` is an error or moves on inside the script.
pub Reads-parse_next_op : (s : Script) (pc : ℕ) → Reads s pc (parse_next_op s pc)
unfolding parse_next_op
Reads-parse_next_op s pc = elim (dec_lt pc (length s)) [
  | no over ↦ rw (le→leb (length s) pc (omega arith)) (stops 0 pc script_bound)
  | yes more ↦
      let (op, e) = get_elem?-in s pc more in
      rw (lt→leb pc (length s) more, e)
        (Reads-if s pc (ltb op_pushdata4 op) _ _
          (reads op (pc + 1) none (omega arith) (omega arith))
          (Reads-if s pc (ltb op op_pushdata1) (read_operand s op (pc + 1) op) _
            (Reads-read_operand s op pc (pc + 1) op (omega arith) (omega arith))
            (Reads-if s pc (op == op_pushdata1) (read_data1 s op (pc + 1)) _
              (Reads-read_data1 s op pc more)
              (Reads-if s pc (op == op_pushdata2) (read_data2 s op (pc + 1))
                (read_data4 s op (pc + 1)) (Reads-read_data2 s op pc more)
                (Reads-read_data4 s op pc more)))))
]

Reads-cases :
    (s : Script) (pc : ℕ) (p : Parsed)
    → Reads s pc p
    → ((p.failure ≡ none) × (pc < p.pc) × (p.pc ≤ length s))
      ⊎ ((e : Error) × (p.failure ≡ some (failed e)))
Reads-cases s pc _ (stops op pc' e) = unfold missing_size in inr (e, refl)
Reads-cases s pc _ (reads op pc' o moves inside) = inl (refl, moves, inside)

pub parse_next_op-cases :
    (s : Script) (pc : ℕ)
    → (((parse_next_op s pc).failure ≡ none)
        × (pc < (parse_next_op s pc).pc)
        × ((parse_next_op s pc).pc ≤ length s))
      ⊎ ((e : Error) × ((parse_next_op s pc).failure ≡ some (failed e)))
parse_next_op-cases s pc = Reads-cases s pc (parse_next_op s pc) (Reads-parse_next_op s pc)
