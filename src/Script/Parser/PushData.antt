-- ===== src/Script/Parser/PushData.antt =====
-- `parseNextOp` against the methods that write opcodes and operands, at any place of a script.
use boxd.Prelude.{
  ℕ, suc, ◌+◌, ◌-◌, ◌%◌, ◌^◌, ◌≤◌, ◌<◌, ◌≡◌, refl, ap, sym, ◌∙◌, none, some, List, [], ◌∷◌, ◌++◌,
  append_assoc, length, length-append, length-take, take-append-drop, get_elem?, get_elem?-append,
  take, take-append, drop, drop-append, slice, slice?, ltb, leb, lt→ltb, le→ltb, lt→leb, le→leb,
  false, if◌then◌else◌, arith,
}
use boxd.Script.Bytes.{put_uint, uint, length-put_uint, uint-put_uint}
use boxd.Script.Builder.{operand_prefix, add_operand}
use boxd.Script.Opcode.{OpCode, op_pushdata1, op_pushdata2, op_pushdata4}
use boxd.Script.Parser.{read_operand, read_data1, read_data2, read_data4, parse_next_op}
use native.Mathlib.Decide.{dec_lt}

-- The opcode that `AddOperand` writes.
unfoldable pub push_op_code : ℕ → OpCode
push_op_code n =
    if ltb n op_pushdata1
    then n
    else if leb n 0xff
    then op_pushdata1
    else if leb n 0xffff
    then op_pushdata2
    else op_pushdata4

slice-middle :
    (s a m b : List ℕ) (i j : ℕ)
    → s ≡ a ++ (m ++ b)
    → i ≡ length a
    → j ≡ i + length m
    → slice s i j ≡ m
slice-middle s a m b i j e ei ej =
    rw (e, drop-append a (m ++ b) i ei) (take-append m b (j - i) (omega arith))

slice?-middle :
    (s a m b : List ℕ) (i j : ℕ)
    → s ≡ a ++ (m ++ b)
    → i ≡ length a
    → j ≡ i + length m
    → slice? s i j ≡ some m
unfolding slice?
slice?-middle s a m b i j e ei ej =
    let len : length s ≡ length a + (length m + length b) =
      ap length e ∙ omega (arith, length-append a (m ++ b), length-append m b) in
    rw (le→leb i j (omega arith), le→leb j (length s) (omega (arith, len)))
      (ap some (slice-middle s a m b i j e ei ej))

read_operand-middle :
    (s a m b : List ℕ) (op pc size : ℕ)
    → s ≡ a ++ (m ++ b)
    → pc ≡ length a
    → size ≡ length m
    → read_operand s op pc size
      ≡ record { op_code = op; operand = some m; pc = pc + size; failure = none }
unfolding read_operand
read_operand-middle s a m b op pc size e ei ej =
    let len : length s ≡ length a + (length m + length b) =
      ap length e ∙ omega (arith, length-append a (m ++ b), length-append m b) in
    rw
      (
        le→ltb (length s - pc) size (omega (arith, len)),
        slice?-middle s a m b pc (pc + size) e ei (omega arith),
      )
      refl

-- An opcode that is no push.
pub parse_next_op-op :
    (s pre rest : List ℕ) (op pc : ℕ)
    → s ≡ pre ++ (op ∷ rest)
    → pc ≡ length pre
    → op_pushdata4 < op
    → parse_next_op s pc ≡ record { op_code = op; operand = none; pc = pc + 1; failure = none }
unfolding parse_next_op
parse_next_op-op s pre rest op pc e ei h =
    let len : length s ≡ length pre + suc (length rest) =
      ap length e ∙ length-append pre (op ∷ rest) in
    let at_pc : get_elem? s pc ≡ some op = rw e (get_elem?-append pre op rest pc ei) in
    rw (lt→leb pc (length s) (omega (arith, len)), at_pc, lt→ltb 78 op h)

-- The first byte of a push, and what stands behind it.
first_byte :
    (s pre rest : List ℕ) (op pc : ℕ)
    → s ≡ pre ++ (op ∷ rest)
    → pc ≡ length pre
    → (leb (length s) pc ≡ false) × (get_elem? s pc ≡ some op) × (length s ≡ pc + suc (length rest))
first_byte s pre rest op pc e ei =
    let len : length s ≡ length pre + suc (length rest) =
      ap length e ∙ length-append pre (op ∷ rest) in
    (
      lt→leb pc (length s) (omega (arith, len)),
      rw e (get_elem?-append pre op rest pc ei),
      omega (arith, len),
    )

split_front : (pre front rest : List ℕ) → pre ++ (front ++ rest) ≡ (pre ++ front) ++ rest
split_front pre front rest = sym (append_assoc pre front rest)

push_short :
    (s pre m rest : List ℕ) (pc : ℕ)
    → s ≡ pre ++ (length m ∷ (m ++ rest))
    → pc ≡ length pre
    → length m < 76
    → parse_next_op s pc
      ≡ record { op_code = length m; operand = some m; pc = pc + 1 + length m; failure = none }
unfolding parse_next_op
push_short s pre m rest pc e ei h =
    let (more, at_pc, len) = first_byte s pre (m ++ rest) (length m) pc e ei in
    rw (more, at_pc, le→ltb 78 (length m) (omega arith), lt→ltb (length m) 76 h)
      (read_operand-middle s (pre ++ (length m ∷ [])) m rest _ (pc + 1) (length m)
        (e ∙ split_front pre (length m ∷ []) (m ++ rest))
        (omega (arith, length-append pre (length m ∷ []))) refl)

push_data1 :
    (s pre m rest : List ℕ) (pc : ℕ)
    → s ≡ pre ++ (76 ∷ length m ∷ (m ++ rest))
    → pc ≡ length pre
    → parse_next_op s pc
      ≡ record { op_code = 76; operand = some m; pc = pc + 2 + length m; failure = none }
unfolding parse_next_op read_data1
push_data1 s pre m rest pc e ei =
    let (more, at_pc, len) = first_byte s pre (length m ∷ (m ++ rest)) 76 pc e ei in
    let e1 : s ≡ (pre ++ (76 ∷ [])) ++ (length m ∷ (m ++ rest)) = e ∙ split_front pre (76 ∷ []) _ in
    let at_size : get_elem? s (pc + 1) ≡ some (length m) = rw e1 (
      get_elem?-append (pre ++ (76 ∷ [])) (length m) (m ++ rest) (pc + 1)
        (omega (arith, length-append pre (76 ∷ [])))) in
    rw (more, at_pc, at_size, le→ltb (length s - (pc + 1)) 1 (omega (arith, len)))
      (read_operand-middle s (pre ++ (76 ∷ length m ∷ [])) m rest _ (pc + 1 + 1) (length m)
          (e ∙ split_front pre (76 ∷ length m ∷ []) (m ++ rest))
          (omega (arith, length-append pre (76 ∷ length m ∷ []))) refl
        ∙ ap (λ (k : ℕ). record { op_code = 76; operand = some m; pc = k; failure = none })
            (omega arith))

size_bytes :
    (s pre m rest : List ℕ) (op pc k : ℕ)
    → s ≡ pre ++ (op ∷ (put_uint k (length m) ++ (m ++ rest)))
    → pc ≡ length pre
    → slice? s (pc + 1) (pc + 1 + k) ≡ some (put_uint k (length m))
size_bytes s pre m rest op pc k e ei =
    slice?-middle s (pre ++ (op ∷ [])) (put_uint k (length m)) (m ++ rest) (pc + 1) (pc + 1 + k)
      (e ∙ split_front pre (op ∷ []) _) (omega (arith, length-append pre (op ∷ [])))
      (omega (arith, length-put_uint k (length m)))

behind_size :
    (s pre m rest : List ℕ) (op k : ℕ)
    → s ≡ pre ++ (op ∷ (put_uint k (length m) ++ (m ++ rest)))
    → s ≡ (pre ++ (op ∷ put_uint k (length m))) ++ (m ++ rest)
behind_size s pre m rest op k e = e ∙ split_front pre (op ∷ put_uint k (length m)) (m ++ rest)

length-behind_size :
    (pre m : List ℕ) (op pc k : ℕ)
    → pc ≡ length pre
    → pc + 1 + k ≡ length (pre ++ (op ∷ put_uint k (length m)))
length-behind_size pre m op pc k ei =
    omega (arith, length-append pre (op ∷ put_uint k (length m)), length-put_uint k (length m))

push_data2 :
    (s pre m rest : List ℕ) (pc : ℕ)
    → s ≡ pre ++ (77 ∷ (put_uint 2 (length m) ++ (m ++ rest)))
    → pc ≡ length pre
    → length m ≤ 0xffff
    → parse_next_op s pc
      ≡ record { op_code = 77; operand = some m; pc = pc + 1 + 2 + length m; failure = none }
unfolding parse_next_op read_data2
push_data2 s pre m rest pc e ei h =
    let (more, at_pc, len) = first_byte s pre (put_uint 2 (length m) ++ (m ++ rest)) 77 pc e ei in
    let room : ltb (length s - (pc + 1)) 2 ≡ false = le→ltb _ 2 (
      omega (
        arith,
        len,
        length-append (put_uint 2 (length m)) (m ++ rest),
        length-put_uint 2 (length m),
      )) in
    let size = uint-put_uint 2 (length m) (omega arith) in
    rw (more, at_pc, room, size_bytes s pre m rest 77 pc 2 e ei)
      (ap (read_operand s 77 (pc + 1 + 2)) size
        ∙ read_operand-middle s (pre ++ (77 ∷ put_uint 2 (length m))) m rest 77 (pc + 1 + 2)
            (length m) (behind_size s pre m rest 77 2 e) (length-behind_size pre m 77 pc 2 ei) refl)

-- The two size bytes that are read behind OPPUSHDATA4.
low_size : (n : ℕ) → uint (take 2 (put_uint 4 n)) ≡ n % 2 ^ 16
unfolding uint put_uint
low_size n = omega arith

push_data4 :
    (s pre m rest : List ℕ) (pc : ℕ)
    → s ≡ pre ++ (78 ∷ (put_uint 4 (length m) ++ (m ++ rest)))
    → pc ≡ length pre
    → parse_next_op s pc ≡ record {
      op_code = 78;
      operand = some (take (length m % 2 ^ 16) m);
      pc = pc + 1 + 4 + length m % 2 ^ 16;
      failure = none;
    }
unfolding parse_next_op read_data4
push_data4 s pre m rest pc e ei =
    let (more, at_pc, len) = first_byte s pre (put_uint 4 (length m) ++ (m ++ rest)) 78 pc e ei in
    let room : ltb (length s - (pc + 1)) 4 ≡ false = le→ltb _ 4 (
      omega (
        arith,
        len,
        length-append (put_uint 4 (length m)) (m ++ rest),
        length-put_uint 4 (length m),
      )) in
    let cut : s
        ≡ (pre ++ (78 ∷ put_uint 4 (length m)))
          ++ (take (length m % 2 ^ 16) m ++ (drop (length m % 2 ^ 16) m ++ rest)) =
      behind_size s pre m rest 78 4 e
      ∙ ap (λ t. (pre ++ (78 ∷ put_uint 4 (length m))) ++ t)
          (ap (λ t. t ++ rest) (sym (take-append-drop (length m % 2 ^ 16) m))
            ∙ append_assoc (take (length m % 2 ^ 16) m) (drop (length m % 2 ^ 16) m) rest) in
    rw (more, at_pc, room, size_bytes s pre m rest 78 pc 4 e ei)
      (ap (read_operand s 78 (pc + 1 + 4)) (low_size (length m))
        ∙ read_operand-middle s (pre ++ (78 ∷ put_uint 4 (length m))) (take (length m % 2 ^ 16) m) _
            78 (pc + 1 + 4) (length m % 2 ^ 16) cut (length-behind_size pre m 78 pc 4 ei)
            (omega (arith, length-take (length m % 2 ^ 16) m)))

-- An operand of at most 0xffff bytes, as `AddOperand` writes it, at any place of a script.
pub parse_next_op-push :
    (s pre m rest : List ℕ) (pc : ℕ)
    → s ≡ pre ++ (operand_prefix (length m) ++ (m ++ rest))
    → pc ≡ length pre
    → length m ≤ 0xffff
    → parse_next_op s pc ≡ record {
      op_code = push_op_code (length m);
      operand = some m;
      pc = pc + length (operand_prefix (length m)) + length m;
      failure = none;
    }
unfolding operand_prefix push_op_code
parse_next_op-push s pre m rest pc e ei h = elim (dec_lt (length m) 76) [
  | yes short ↦
      rw (lt→ltb (length m) 76 short)
        (push_short s pre m rest pc (rw (lt→ltb (length m) 76 short) at e) ei short)
  | no long ↦
      let l = le→ltb (length m) 76 (omega arith) in
      elim (dec_lt 0xff (length m)) [
        | no small ↦
            let b = le→leb (length m) 0xff (omega arith) in
            rw (l, b) (push_data1 s pre m rest pc (rw (l, b) at e) ei)
        | yes large ↦
            let b = lt→leb 0xff (length m) large in
            let c = le→leb (length m) 0xffff h in
            rw (l, b, c)
              (push_data2 s pre m rest pc (rw (l, b, c) at e) ei h
                ∙ ap (λ (k : ℕ). record { op_code = 77; operand = some m; pc = k; failure = none })
                    (omega (arith, length-put_uint 2 (length m))))
      ]
]

add_operand-shape :
    (pre m rest : List ℕ)
    → add_operand pre m ++ rest ≡ pre ++ (operand_prefix (length m) ++ (m ++ rest))
unfolding add_operand
add_operand-shape pre m rest = simp append_assoc

length-add_operand :
    (pre m : List ℕ)
    → length (add_operand pre m) ≡ length pre + length (operand_prefix (length m)) + length m
unfolding add_operand
length-add_operand pre m = omega (
  arith,
  length-append (pre ++ operand_prefix (length m)) m,
  length-append pre (operand_prefix (length m)),
)

-- An operand of at most 0xffff bytes that `AddOperand` appends to a script is what `parseNextOp`
-- reads at the script's old end, whatever follows: the whole operand, no error, and the counter
-- past it.
pub parse_next_op-add_operand :
    (pre m rest : List ℕ)
    → length m ≤ 0xffff
    → parse_next_op (add_operand pre m ++ rest) (length pre) ≡ record {
      op_code = push_op_code (length m);
      operand = some m;
      pc = length (add_operand pre m);
      failure = none;
    }
parse_next_op-add_operand pre m rest h =
    rw (length-add_operand pre m)
      (parse_next_op-push _ pre m rest (length pre) (add_operand-shape pre m rest) refl h)

-- Of an operand of more than 0xffff bytes that `AddOperand` appends, `parseNextOp` reads back the
-- first `length % 2 ^ 16` bytes, with no error: the operand is cut short, and the counter stands
-- inside it.
pub parse_next_op-add_operand_long :
    (pre m rest : List ℕ)
    → 0xffff < length m
    → parse_next_op (add_operand pre m ++ rest) (length pre) ≡ record {
      op_code = op_pushdata4;
      operand = some (take (length m % 2 ^ 16) m);
      pc = length pre + 5 + length m % 2 ^ 16;
      failure = none;
    }
parse_next_op-add_operand_long pre m rest h =
    push_data4 _ pre m rest (length pre)
      (add_operand-shape pre m rest
        ∙ unfold operand_prefix in
          rw (
            le→ltb (length m) 76 (omega arith),
            lt→leb 0xff (length m) (omega arith),
            lt→leb 0xffff (length m) h,
          ))
      refl
    ∙ ap
        (λ (k : ℕ). record {
          op_code = op_pushdata4;
          operand = some (take (length m % 2 ^ 16) m);
          pc = k;
          failure = none;
        })
        (omega arith)
