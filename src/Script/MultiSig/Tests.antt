-- ===== src/Script/MultiSig/Tests.antt =====
-- The theorems on multisignature checks at concrete stacks. A signature verifies with a key that has
-- the same bytes.
use boxd.Prelude.{◌≡◌, refl, ◌⊎◌, List, [], ◌∷◌, bytes_equal, arith}
use boxd.Prelude.Result.{ok, err}
use boxd.Script.Bytes.{big_of_bytes}
use boxd.Script.Error.{invalid_stack_operation}
use boxd.Script.MultiSig.{check_multi_sig}
use boxd.Script.MultiSig.Check.{multi_sig_stack, check_multi_sig-Matches}
use boxd.Script.MultiSig.Greedy.{Matches}
use boxd.Script.MultiSig.Overflow.{check_multi_sig-overflow}
use boxd.Script.Opcode.{op_checkmultisig}
use boxd.Script.Stack.{Operand, operand_true, operand_false, operand_int, size, push, pop, top_n}

abbrev keys : List Operand
keys = (1 ∷ []) ∷ (2 ∷ []) ∷ (3 ∷ []) ∷ []

abbrev sigs : List Operand
sigs = (1 ∷ []) ∷ (3 ∷ []) ∷ []

-- Two of three, in the order of the keys and in the other order.
in_order :
    check_multi_sig bytes_equal op_checkmultisig (multi_sig_stack (3 ∷ []) keys (2 ∷ []) sigs [])
    ≡ ok (operand_true ∷ [])
unfolding check_multi_sig size top_n operand_int big_of_bytes bytes_equal push pop
in_order = refl

out_of_order :
    check_multi_sig bytes_equal op_checkmultisig
      (multi_sig_stack (3 ∷ []) keys (2 ∷ []) ((3 ∷ []) ∷ (1 ∷ []) ∷ []) [])
    ≡ ok (operand_false ∷ [])
unfolding check_multi_sig size top_n operand_int big_of_bytes bytes_equal push pop
out_of_order = refl

missing_key :
    check_multi_sig bytes_equal op_checkmultisig ((3 ∷ []) ∷ (1 ∷ []) ∷ [])
    ≡ err invalid_stack_operation
unfolding check_multi_sig size top_n operand_int big_of_bytes bytes_equal push pop
missing_key = refl

check_multi_sig-Matches_example :
    (Matches bytes_equal sigs keys
      × (check_multi_sig bytes_equal op_checkmultisig
            (multi_sig_stack (3 ∷ []) keys (2 ∷ []) sigs [])
          ≡ ok (operand_true ∷ [])))
    ⊎ ((¬ Matches bytes_equal sigs keys)
        × (check_multi_sig bytes_equal op_checkmultisig
              (multi_sig_stack (3 ∷ []) keys (2 ∷ []) sigs [])
            ≡ ok (operand_false ∷ [])))
check_multi_sig-Matches_example =
    check_multi_sig-Matches bytes_equal op_checkmultisig (3 ∷ []) keys (2 ∷ []) sigs []
      (λ e. omega (arith, e)) (unfold big_of_bytes in refl) (unfold big_of_bytes in refl)
      (omega arith) (omega arith)

-- 2 ^ 63 - 1.
abbrev max_int : Operand
max_int = 0x7f ∷ 0xff ∷ 0xff ∷ 0xff ∷ 0xff ∷ 0xff ∷ 0xff ∷ 0xff ∷ []

check_multi_sig-overflow_example :
    check_multi_sig bytes_equal op_checkmultisig (max_int ∷ []) ≡ ok (operand_true ∷ max_int ∷ [])
check_multi_sig-overflow_example =
    check_multi_sig-overflow bytes_equal op_checkmultisig max_int [] (λ e. omega (arith, e))
      (unfold big_of_bytes in omega arith) (unfold big_of_bytes in omega arith) (omega arith)
