-- ===== src/Script/Reader/Cuts.antt =====
-- `getNthOp` at a cut of a script: what is read of an operand or an opcode behind the cut.
use boxd.Prelude.{
  append_assoc, ℕ, ◌+◌, ◌≤◌, ◌<◌, ◌≡◌, refl, ap, ◌∙◌, none, some, List, [], ◌∷◌, ◌++◌, length, true,
  ltb, lt→ltb, le→leb, arith,
}
use boxd.Prelude.Result.{ok, err}
use boxd.Script.Builder.{Script, operand_prefix}
use boxd.Script.Error.{failed, script_bound}
use boxd.Script.Interp.{operand_bytes}
use boxd.Script.Opcode.{op_pushdata4}
use boxd.Script.Parser.{Parsed, parse_next_op}
use boxd.Script.Parser.PushData.{push_op_code, parse_next_op-op, parse_next_op-push}
use boxd.Script.Reader.{next_op, get_nth_op}
use boxd.Prelude.{subst, sym}

next_op-parsed :
    (s : Script) (pc : ℕ)
    → (parse_next_op s pc).failure ≡ none
    → next_op s pc
      ≡ ok (
        (parse_next_op s pc).op_code,
        operand_bytes (parse_next_op s pc).operand,
        (parse_next_op s pc).pc,
      )
unfolding next_op
next_op-parsed s pc good = rw (next_op, good)

pub next_op-as :
    (s : Script) (pc : ℕ) (p : Parsed)
    → parse_next_op s pc ≡ p
    → p.failure ≡ none
    → next_op s pc ≡ ok (p.op_code, operand_bytes p.operand, p.pc)
next_op-as s pc p e =
    subst (λ q. q.failure ≡ none → next_op s pc ≡ ok (q.op_code, operand_bytes q.operand, q.pc)) e
      (next_op-parsed s pc)

-- An operand of fewer than 76 bytes.
pub next_op-push :
    (s pre m rest : List ℕ) (pc k : ℕ)
    → s ≡ pre ++ (operand_prefix (length m) ++ (m ++ rest))
    → pc ≡ length pre
    → length m ≡ k
    → k < 76
    → next_op s pc ≡ ok (k, m, pc + 1 + k)
next_op-push s pre m rest pc k e ei size small =
    let short : ltb (length m) 76 ≡ true = lt→ltb (length m) 76 (omega arith) in
    let op : push_op_code (length m) ≡ k = unfold push_op_code in rw short size in
    let one : length (operand_prefix (length m)) ≡ 1 = unfold operand_prefix in rw short refl in
    next_op-as s pc _ (parse_next_op-push s pre m rest pc e ei (omega arith)) refl
    ∙ ap (λ (c : ℕ). ok (c, m, pc + length (operand_prefix (length m)) + length m)) op
    ∙ ap (λ (c : ℕ). ok (k, m, c)) (omega (arith, one, size))

-- An opcode that is no push.
pub next_op-op :
    (s pre rest : List ℕ) (op pc : ℕ)
    → s ≡ pre ++ (op ∷ rest)
    → pc ≡ length pre
    → op_pushdata4 < op
    → next_op s pc ≡ ok (op, [], pc + 1)
next_op-op s pre rest op pc e ei h =
    next_op-as s pc _ (parse_next_op-op s pre rest op pc e ei h) refl

past_end :
    (s : Script) (pc : ℕ)
    → length s ≤ pc
    → (parse_next_op s pc).failure ≡ some (failed script_bound)
unfolding parse_next_op
past_end s pc h = rw (le→leb (length s) pc h) refl

-- The end of the script.
pub next_op-end : (s : Script) (pc : ℕ) → length s ≤ pc → next_op s pc ≡ err script_bound
unfolding next_op
next_op-end s pc h = rw (next_op, past_end s pc h)

-- An operand of `k` bytes whose length stands in front of it as an opcode.
pub get_nth_op-short :
    (s pre m rest : List ℕ) (pc k : ℕ)
    → s ≡ pre ++ (k ∷ (m ++ rest))
    → pc ≡ length pre
    → length m ≡ k
    → k < 76
    → get_nth_op s pc 0 ≡ ok (k, m, pc + 1 + k)
unfolding get_nth_op
get_nth_op-short s pre m rest pc k e ei size small =
    let prefix : operand_prefix (length m) ≡ k ∷ [] =
      unfold operand_prefix in
      rw (lt→ltb (length m) 76 (omega arith)) (ap (λ (c : ℕ). c ∷ []) size) in
    next_op-push s pre m rest pc k (e ∙ ap (λ (t : List ℕ). pre ++ (t ++ (m ++ rest))) (sym prefix))
      ei size small

-- The cut behind an operand.
pub cut_behind :
    (s pre m rest : List ℕ) (k : ℕ) → s ≡ pre ++ (k ∷ (m ++ rest)) → s ≡ (pre ++ (k ∷ m)) ++ rest
cut_behind s pre m rest k e = e ∙ sym (append_assoc pre (k ∷ m) rest)
