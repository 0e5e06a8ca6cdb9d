-- ===== src/Script/MultiSig/Check.antt =====
-- A multisignature check on a stack with counts, keys and signatures in place.
use boxd.Prelude.{
  ℕ, zero, suc, ◌+◌, ◌-◌, ◌^◌, ◌≤◌, ◌<◌, ◌≡◌, ◌≢◌, refl, ap, sym, ◌∙◌, Bool, Bool-cases, ◌⊎◌, inl,
  inr, List, [], ◌∷◌, ◌++◌, append_assoc, length, length-append, le→ltb, ne→==, if◌then◌else◌,
  arith,
}
use boxd.Prelude.Words.{add64, sub64}
use boxd.Prelude.Result.{ok}
use boxd.Script.Bytes.{big_of_bytes}
use boxd.Script.Opcode.{OpCode, op_checksigverify}
use boxd.Script.Stack.{
  Operand, Stack, operand_true, operand_false, operand_int, size, push, pop, top_n,
}
use boxd.Script.Stack.Access.{int_lt-true, int_lt-false, top_n-in, operand_int-ok}
use boxd.Script.MultiSig.{pops, finish_multi_sig, multi_sig_tail, check_multi_sig}
use boxd.Script.MultiSig.Greedy.{Matches, greedy, greedy_sound, greedy_complete}
use boxd.Script.MultiSig.Loop.{IsAt, top_n-IsAt, IsAt-next, loop-greedy}

pops-append : (n : ℕ) (front back : Stack) → n ≡ length front → pops n (front ++ back) ≡ back
unfolding pops pop
pops-append zero [] back e = refl
pops-append zero (o ∷ front) back e = absurd (omega arith)
pops-append (suc n) [] back e = absurd (omega arith)
pops-append (suc n) (o ∷ front) back e = pops-append n front back (omega arith)

-- The stack of a multisignature check: the key count on top, the keys, the signature count and the
-- signatures.
abbrev pub multi_sig_stack : Operand → List Operand → Operand → List Operand → Stack → Stack
multi_sig_stack key_count keys sig_count sigs rest =
    key_count ∷ (keys ++ (sig_count ∷ (sigs ++ rest)))

module _ (verify : Operand → Operand → Bool) (op_code : OpCode) (key_count : Operand)
    (keys : List Operand) (sig_count : Operand) (sigs : List Operand) (rest : Stack) where
  stack : Stack
  stack = multi_sig_stack key_count keys sig_count sigs rest

  length-stack : length stack ≡ length keys + length sigs + length rest + 2
  unfolding stack
  length-stack =
      omega (arith, length-append keys (sig_count ∷ (sigs ++ rest)), length-append sigs rest)

  keys-IsAt : IsAt stack 2 keys
  unfolding stack
  keys-IsAt = record {
    above = key_count ∷ [];
    below = sig_count ∷ (sigs ++ rest);
    shape = refl;
    index = omega arith;
  }

  counts-IsAt : IsAt stack (2 + length keys) (sig_count ∷ sigs)
  unfolding stack
  counts-IsAt = record { above = key_count ∷ keys; below = rest; shape = refl; index = omega arith }

  popped : pops (length keys + length sigs + 2) stack ≡ rest
  unfolding stack
  popped =
      let whole : stack ≡ (key_count ∷ (keys ++ (sig_count ∷ sigs))) ++ rest =
        ap (◌∷◌ key_count) (sym (append_assoc keys (sig_count ∷ sigs) rest)) in
      rw whole (
        pops-append _ (key_count ∷ (keys ++ (sig_count ∷ sigs))) rest
          (omega (arith, length-append keys (sig_count ∷ sigs))))

  tail-greedy :
      op_code ≢ op_checksigverify
      → big_of_bytes sig_count ≡ length sigs
      → length sigs ≤ length keys
      → length stack < 2 ^ 62
      → multi_sig_tail verify op_code stack (length keys) (2 + length keys)
        ≡ ok ((if greedy verify sigs keys then operand_true else operand_false) ∷ rest)
  unfolding multi_sig_tail finish_multi_sig size push
  tail-greedy ne es few small =
      let n = length keys in
      let m = length sigs in
      let len = length-stack in
      let at_count : top_n stack (2 + n) ≡ sig_count =
        top_n-IsAt stack (2 + n) sig_count sigs counts-IsAt small in
      let count : operand_int sig_count ≡ ok m =
        operand_int-ok sig_count (omega (arith, es, len)) ∙ ap ok es in
      let next : add64 (2 + n) 1 ≡ 3 + n = omega (arith, len) in
      let past : add64 (3 + n) m ≡ 3 + n + m = omega (arith, len) in
      let last : sub64 (3 + n + m) 1 ≡ n + m + 2 = omega (arith, len) in
      let pop_count : 3 + n + m - 1 ≡ n + m + 2 = omega arith in
      let sigs_at : IsAt stack (3 + n) sigs =
        rw next at (IsAt-next stack (2 + n) sig_count sigs counts-IsAt small) in
      rw (at_count, count)
        (rw (
          int_lt-false m 0 (omega arith) (omega (arith, len)),
          int_lt-false n m few (omega (arith, len)),
          next,
          past,
          last,
          int_lt-false (length stack) (n + m + 2) (omega (arith, len)) (omega arith),
          int_lt-true 1 (3 + n + m) (omega arith) (omega (arith, len)),
          pop_count,
          popped,
          loop-greedy verify stack sigs keys 2 (3 + n) keys-IsAt sigs_at small few,
          ne→== op_code op_checksigverify ne,
        ))

  check_multi_sig-greedy :
      op_code ≢ op_checksigverify
      → big_of_bytes key_count ≡ length keys
      → big_of_bytes sig_count ≡ length sigs
      → length sigs ≤ length keys
      → length stack < 2 ^ 62
      → check_multi_sig verify op_code stack
        ≡ ok ((if greedy verify sigs keys then operand_true else operand_false) ∷ rest)
  unfolding check_multi_sig size
  check_multi_sig-greedy ne ek es few small =
      let n = length keys in
      let len = length-stack in
      let top : top_n stack 1 ≡ key_count =
        unfold stack in top_n-in stack 1 (omega arith) (omega arith) (omega arith) in
      let count : operand_int key_count ≡ ok n =
        operand_int-ok key_count (omega (arith, ek, len)) ∙ ap ok ek in
      let index : add64 2 n ≡ 2 + n = omega (arith, len) in
      rw (le→ltb (length stack) 1 (omega (arith, len)), top, count)
        (rw
          (
            int_lt-false n 0 (omega arith) (omega (arith, len)),
            index,
            int_lt-false (length stack) (2 + n) (omega (arith, len)) (omega arith),
          )
          (tail-greedy ne es few small))

-- On a stack with a key count, that many keys, a signature count and that many signatures, with no
-- more signatures than keys, the check takes all of these off and pushes true exactly if the
-- signatures match the keys in order, each key serving once at most; else it pushes false. The
-- opcode is any but OPCHECKSIGVERIFY, and the stack is shorter than 2 ^ 62.
pub check_multi_sig-Matches :
    (verify : Operand → Operand → Bool) (op_code : OpCode) (key_count : Operand)
    (keys : List Operand) (sig_count : Operand) (sigs : List Operand) (rest : Stack)
    → op_code ≢ op_checksigverify
    → big_of_bytes key_count ≡ length keys
    → big_of_bytes sig_count ≡ length sigs
    → length sigs ≤ length keys
    → length (multi_sig_stack key_count keys sig_count sigs rest) < 2 ^ 62
    → (Matches verify sigs keys
        × (check_multi_sig verify op_code (multi_sig_stack key_count keys sig_count sigs rest)
            ≡ ok (operand_true ∷ rest)))
      ⊎ ((¬ Matches verify sigs keys)
          × (check_multi_sig verify op_code (multi_sig_stack key_count keys sig_count sigs rest)
              ≡ ok (operand_false ∷ rest)))
unfolding stack
check_multi_sig-Matches verify op_code key_count keys sig_count sigs rest ne ek es few small =
    let run =
      check_multi_sig-greedy verify op_code key_count keys sig_count sigs rest ne ek es few small in
    elim (Bool-cases (greedy verify sigs keys)) [
      | inl e ↦ inl (
        greedy_sound verify sigs keys e,
        run ∙ ap (λ (b : Bool). ok ((if b then operand_true else operand_false) ∷ rest)) e,
      )
      | inr e ↦ inr (
        (λ m. cc (e, greedy_complete verify sigs keys m)),
        run ∙ ap (λ (b : Bool). ok ((if b then operand_true else operand_false) ∷ rest)) e,
      )
    ]
