-- ===== src/Script/Items.antt =====
-- A script as a list of opcodes and operands, and how `getNthOp` and `parse` walk along it.
use boxd.Prelude.{
  ℕ, zero, suc, ◌+◌, ◌≤◌, ◌<◌, ◌≡◌, refl, ap, sym, ◌∙◌, List, [], ◌∷◌, ◌++◌, append_assoc, length,
  length-append, All, arith,
}
use boxd.Prelude.Result.{ok}
use boxd.Script.Builder.{Script, operand_prefix}
use boxd.Script.Opcode.{OpCode, op_pushdata4}
use boxd.Script.Parser.PushData.{push_op_code, parse_next_op-op, parse_next_op-push}
use boxd.Script.Reader.{next_op, get_nth_op}
use boxd.Script.Reader.Cuts.{next_op-as}
use boxd.Script.Stack.{Operand}

pub data Item : Type 0 where
  code : OpCode → Item
  push : Operand → Item

unfoldable pub item_bytes : Item → Script
item_bytes (code v) = v ∷ []
item_bytes (push m) = operand_prefix (length m) ++ m

unfoldable pub script_of : List Item → Script
script_of [] = []
script_of (i ∷ is) = item_bytes i ++ script_of is

-- An opcode that is no push, or an operand whose size is read back.
unfoldable pub IsItem : Item → Type 0
IsItem (code v) = op_pushdata4 < v
IsItem (push m) = length m ≤ 0xffff

unfoldable pub item_op : Item → OpCode
item_op (code v) = v
item_op (push m) = push_op_code (length m)

unfoldable pub item_operand : Item → Operand
item_operand (code v) = []
item_operand (push m) = m

next_op-item :
    (s pre rest : Script) (i : Item) (pc : ℕ)
    → IsItem i
    → s ≡ pre ++ (item_bytes i ++ rest)
    → pc ≡ length pre
    → next_op s pc ≡ ok (item_op i, item_operand i, pc + length (item_bytes i))
unfolding IsItem item_bytes item_op item_operand
next_op-item s pre rest (code v) pc h e ei =
    next_op-as s pc _ (parse_next_op-op s pre rest v pc e ei h) refl
next_op-item s pre rest (push m) pc h e ei =
    next_op-as s pc _
      (parse_next_op-push s pre m rest pc
        (e ∙ ap (λ (t : Script). pre ++ t) (append_assoc (operand_prefix (length m)) m rest)) ei h)
      refl
    ∙ ap (λ (c : ℕ). ok (push_op_code (length m), m, c))
        (omega (arith, length-append (operand_prefix (length m)) m))

-- Behind the items `before`, the operation `getNthOp` that skips them reads the item `i`.
pub get_nth_op-item :
    (s pre rest : Script) (before : List Item) (i : Item) (pc n : ℕ)
    → All IsItem before
    → IsItem i
    → s ≡ pre ++ (script_of before ++ (item_bytes i ++ rest))
    → pc ≡ length pre
    → n ≡ length before
    → get_nth_op s pc n
      ≡ ok (item_op i, item_operand i, pc + length (script_of before) + length (item_bytes i))
unfolding get_nth_op script_of
get_nth_op-item s pre rest [] i pc zero hs h e ei en =
    next_op-item s pre rest i pc h e ei
    ∙ ap (λ (c : ℕ). ok (item_op i, item_operand i, c)) (omega arith)
get_nth_op-item s pre rest [] i pc (suc n) hs h e ei en = absurd (omega arith)
get_nth_op-item s pre rest (b ∷ before) i pc zero hs h e ei en = absurd (omega arith)
get_nth_op-item s pre rest (b ∷ before) i pc (suc n) (hb, hs) h e ei en =
    let more = script_of before ++ (item_bytes i ++ rest) in
    let shape : s ≡ pre ++ (item_bytes b ++ more) =
      e
      ∙ ap (λ (t : Script). pre ++ t)
          (append_assoc (item_bytes b) (script_of before) (item_bytes i ++ rest)) in
    rw (get_nth_op, next_op-item s pre more b pc hb shape ei)
      (get_nth_op-item s (pre ++ item_bytes b) rest before i (pc + length (item_bytes b)) n hs h
          (shape ∙ sym (append_assoc pre (item_bytes b) more))
          (omega (arith, length-append pre (item_bytes b))) (omega arith)
        ∙ ap (λ (c : ℕ). ok (item_op i, item_operand i, c))
            (omega (arith, length-append (item_bytes b) (script_of before))))
