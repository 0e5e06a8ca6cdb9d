-- ===== src/Script/Interp/MultiSigVerify.antt =====
-- OPCHECKMULTISIGVERIFY.
use boxd.Prelude.{ℕ, ◌≤◌, ◌<◌, ◌^◌, ◌≡◌, refl, inl, inr, List, [], ◌∷◌, length, drop, le→leb, arith}
use boxd.Prelude.Result.{ok}
use boxd.Types.Transaction.{Transaction}
use boxd.Script.Builder.{Script}
use boxd.Script.Bytes.{big_of_bytes}
use boxd.Script.Interp.{locking_script, exec_op, exec_stack_op, exec_check_multi_sig}
use boxd.Script.MultiSig.Check.{multi_sig_stack, check_multi_sig-Matches}
use boxd.Script.MultiSig.Greedy.{Matches}
use boxd.Script.Opcode.{op_checkmultisigverify}
use boxd.Script.Signature.{Crypto, verify_sig}
use boxd.Script.Stack.{Operand, Stack, operand_false}

-- When the signatures on the stack do not match the keys, OPCHECKMULTISIGVERIFY does not fail the
-- script: it takes the counts, the keys and the signatures off and leaves false on the stack. The
-- signatures are checked against the locking script, which starts inside the script; there are no
-- more signatures than keys, and the stack is shorter than 2 ^ 62.
pub exec_op-checkmultisigverify :
    (crypto : Crypto) (s : Script) (tx : Transaction) (tx_in_idx pc start : ℕ) (key_count : Operand)
    (keys : List Operand) (sig_count : Operand) (sigs : List Operand) (rest : Stack)
    → start ≤ length s
    → big_of_bytes key_count ≡ length keys
    → big_of_bytes sig_count ≡ length sigs
    → length sigs ≤ length keys
    → length (multi_sig_stack key_count keys sig_count sigs rest) < 2 ^ 62
    → (¬ Matches (λ sig key. verify_sig crypto sig key (drop start s) tx tx_in_idx) sigs keys)
    → exec_op crypto s op_checkmultisigverify [] tx tx_in_idx pc start
        (multi_sig_stack key_count keys sig_count sigs rest)
      ≡ ok (start, operand_false ∷ rest)
unfolding exec_op exec_stack_op exec_check_multi_sig locking_script
exec_op-checkmultisigverify crypto s tx tx_in_idx pc start key_count keys sig_count sigs rest inside
      ek es few small unmatched =
    let verify = λ (sig key : Operand). verify_sig crypto sig key (drop start s) tx tx_in_idx in
    elim (check_multi_sig-Matches verify op_checkmultisigverify key_count keys sig_count sigs rest
      (λ e. omega (arith, e)) ek es few small) [
        | inl (matched, _) ↦ absurd (unmatched matched)
        | inr (_, run) ↦ rw (le→leb start (length s) inside, run) refl
      ]
