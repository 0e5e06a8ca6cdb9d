-- ===== src/Script/Interp/PayToKey.antt =====
-- `Validate` on a pay-to-public-key-hash output that is spent with a signature and a key.
use boxd.Prelude.{
  ℕ, suc, ◌+◌, ◌-◌, ◌≤◌, ◌≡◌, refl, ap, ◌∙◌, Bool, Bool-cases, inl, inr, true, false, ◌&&◌, List,
  [], ◌∷◌, ◌++◌, append_assoc, length, length-append, drop, get_or, drop-append, bytes_equal,
  le→leb, ◌==◌, if◌then◌else◌, arith,
}
use boxd.Prelude.Result.{Result, ok, err, ◌>>=◌}
use boxd.Types.Transaction.{Transaction}
use boxd.Script.Builder.{
  Script, operand_prefix, add_op_code, pay_to_pub_key_hash_script, signature_script,
}
use boxd.Script.Error.{Error, script_equal_verify, final_top_stack_ele_false}
use boxd.Script.Interp.{cat_script, locking_script, exec_op, eval_loop, evaluate, validate}
use boxd.Script.Interp.Advance.{run_at, run_at-push, run_at-op, run_at-err, operand_prefix-positive}
use boxd.Script.Interp.Steps.{eval_loop-over}
use boxd.Script.Opcode.{op_codeseparator, op_dup, op_equal, op_hash160, op_equalverify, op_checksig}
use boxd.Script.Signature.{Crypto, verify_sig}
use boxd.Script.Standard.{hash_size, p2sh_script_len, is_pay_to_script_hash}
use boxd.Script.Bytes.{big_of_bytes}
use boxd.Script.Stack.{
  Operand, Stack, operand_true, operand_false, size, push, top_n, pop, validate_top,
}

lock_shape :
    (h : List ℕ)
    → pay_to_pub_key_hash_script h
      ≡ op_dup
        ∷ op_hash160
        ∷ (operand_prefix (length h) ++ (h ++ (op_equalverify ∷ op_checksig ∷ [])))
unfolding pay_to_pub_key_hash_script
lock_shape h = simp append_assoc

cat_shape :
    (sig pk lock : List ℕ)
    → cat_script (signature_script sig pk) lock
      ≡ operand_prefix (length sig)
        ++ (sig ++ (operand_prefix (length pk) ++ (pk ++ (op_codeseparator ∷ lock))))
unfolding cat_script signature_script
cat_shape sig pk lock = simp append_assoc

-- The part of the script before the locking one.
unlock : List ℕ → List ℕ → Script
unlock sig pk = add_op_code (signature_script sig pk) op_codeseparator

bool_operand : Bool → Operand
bool_operand v = if v then operand_true else operand_false

unlock_shape :
    (sig pk : List ℕ)
    → ((operand_prefix (length sig) ++ sig) ++ (operand_prefix (length pk) ++ pk))
        ++ (op_codeseparator ∷ [])
      ≡ unlock sig pk
unfolding unlock signature_script add_op_code
unlock_shape sig pk = simp append_assoc

length-cat :
    (sig pk h : List ℕ)
    → 8 ≤ length (cat_script (signature_script sig pk) (pay_to_pub_key_hash_script h))
length-cat sig pk h =
    rw
      (
        cat_shape sig pk (pay_to_pub_key_hash_script h),
        lock_shape h,
        length-append,
        length-append,
        length-append,
        length-append,
        length-append,
        length-append,
      )
      (omega (
        arith,
        operand_prefix-positive (length sig),
        operand_prefix-positive (length pk),
        operand_prefix-positive (length h),
      ))

-- What `Validate` returns, by the two checks.
outcome : Bool → Bool → Result Error (Unit {0})
outcome same verified =
    if same
    then if verified then ok tt else err final_top_stack_ele_false
    else err script_equal_verify

validate_top-outcome :
    (same verified : Bool)
    → ◌>>=◌ {B = Unit {0}}
        (if same then ok (bool_operand verified ∷ []) else err script_equal_verify)
        validate_top
      ≡ outcome same verified
unfolding outcome bool_operand validate_top top_n size big_of_bytes
validate_top-outcome true true = refl
validate_top-outcome true false = refl
validate_top-outcome false verified = refl

outcome-ok :
    (same verified : Bool)
    → ◌>>=◌ {B = Unit {0}} (outcome same verified) (λ _. ok tt) ≡ outcome same verified
unfolding outcome
outcome-ok true true = refl
outcome-ok true false = refl
outcome-ok false verified = refl

false_and : (a b : Bool) → b ≡ false → (a && b) ≡ false
false_and true b e = e
false_and false b e = refl

not_script_hash : (h : List ℕ) → is_pay_to_script_hash (pay_to_pub_key_hash_script h) ≡ false
unfolding is_pay_to_script_hash
not_script_hash h =
    let s = pay_to_pub_key_hash_script h in
    let first : (get_or s 0 0 == op_hash160) ≡ false = rw (lock_shape h) refl in
    false_and (length s == p2sh_script_len) _
      (ap (λ b. b && (get_or s 1 0 == hash_size && get_or s 22 0 == op_equal)) first)

module _ (crypto : Crypto) (tx : Transaction) (tx_in_idx : ℕ) where
  exec_op-codeseparator :
      (s : Script) (pc start : ℕ) (stack : Stack)
      → exec_op crypto s op_codeseparator [] tx tx_in_idx pc start stack ≡ ok (pc, stack)
  unfolding exec_op
  exec_op-codeseparator s pc start stack = refl

  exec_op-dup :
      (s : Script) (pc start : ℕ) (a b : Operand)
      → exec_op crypto s op_dup [] tx tx_in_idx pc start (a ∷ b ∷ []) ≡ ok (start, a ∷ a ∷ b ∷ [])
  unfolding exec_op size push top_n
  exec_op-dup s pc start a b = refl

  exec_op-hash160 :
      (s : Script) (pc start : ℕ) (a b c : Operand)
      → exec_op crypto s op_hash160 [] tx tx_in_idx pc start (a ∷ b ∷ c ∷ [])
        ≡ ok (start, crypto.hash160 a ∷ b ∷ c ∷ [])
  unfolding exec_op size push top_n pop
  exec_op-hash160 s pc start a b c = refl

  exec_op-equalverify :
      (s : Script) (pc start : ℕ) (a b c d : Operand) (v : Bool)
      → bytes_equal b a ≡ v
      → exec_op crypto s op_equalverify [] tx tx_in_idx pc start (a ∷ b ∷ c ∷ d ∷ [])
        ≡ (if v then ok (start, c ∷ d ∷ []) else err script_equal_verify)
  unfolding exec_op size push top_n pop
  exec_op-equalverify s pc start a b c d true e = rw e refl
  exec_op-equalverify s pc start a b c d false e = rw e refl

  exec_op-checksig :
      (s : Script) (pc start : ℕ) (pk sig : Operand)
      → start ≤ length s
      → exec_op crypto s op_checksig [] tx tx_in_idx pc start (pk ∷ sig ∷ [])
        ≡ ok (start, bool_operand (verify_sig crypto sig pk (drop start s) tx tx_in_idx) ∷ [])
  unfolding exec_op bool_operand size push top_n pop locking_script
  exec_op-checksig s pc start pk sig h = rw (le→leb start (length s) h) refl

  -- OPCHECKSIG at the end of a script.
  run_at-checksig :
      (fuel : ℕ) (pre pre' lock pk sig : List ℕ)
      → pre' ++ (op_checksig ∷ []) ≡ pre ++ lock
      → run_at crypto tx tx_in_idx (suc fuel) pre' (op_checksig ∷ []) (length pre) (pk ∷ sig ∷ [])
        ≡ ok (bool_operand (verify_sig crypto sig pk lock tx tx_in_idx) ∷ [])
  unfolding run_at
  run_at-checksig fuel pre pre' lock pk sig e =
      let at_start : drop (length pre) (pre' ++ (op_checksig ∷ [])) ≡ lock =
        ap (drop (length pre)) e ∙ drop-append pre lock (length pre) refl in
      run_at-op crypto tx tx_in_idx fuel pre' [] op_checksig (length pre) (pk ∷ sig ∷ []) _
        (omega arith)
        (exec_op-checksig (pre' ++ (op_checksig ∷ [])) (length pre' + 1) (length pre) pk sig
          (omega (arith, ap length e, length-append pre lock)))
      ∙ eval_loop-over crypto ((pre' ++ (op_checksig ∷ [])) ++ []) tx tx_in_idx fuel
          (length (pre' ++ (op_checksig ∷ []))) (length pre) _
          (omega (arith, length-append (pre' ++ (op_checksig ∷ [])) []))
      ∙ ap (λ k. ok (bool_operand (verify_sig crypto sig pk k tx tx_in_idx) ∷ [])) at_start

  -- OPEQUALVERIFY and OPCHECKSIG at the end of a script.
  run_at-verify :
      (fuel : ℕ) (pre pre' lock a b pk sig : List ℕ)
      → pre' ++ (op_equalverify ∷ op_checksig ∷ []) ≡ pre ++ lock
      → run_at crypto tx tx_in_idx
          (suc (suc fuel))
          pre'
          (op_equalverify ∷ op_checksig ∷ [])
          (length pre)
          (a ∷ b ∷ pk ∷ sig ∷ [])
        ≡ (if bytes_equal b a
            then ok (bool_operand (verify_sig crypto sig pk lock tx tx_in_idx) ∷ [])
            else err script_equal_verify)
  run_at-verify fuel pre pre' lock a b pk sig e =
      let s = pre' ++ (op_equalverify ∷ op_checksig ∷ []) in
      let exec = exec_op-equalverify s (length pre' + 1) (length pre) a b pk sig in
      elim (Bool-cases (bytes_equal b a)) [
        | inl same ↦ rw same (
            run_at-op crypto tx tx_in_idx (suc fuel) pre' (op_checksig ∷ []) op_equalverify
              (length pre) (a ∷ b ∷ pk ∷ sig ∷ []) (length pre, pk ∷ sig ∷ []) (omega arith)
              (exec true same)
            ∙ run_at-checksig fuel pre (pre' ++ (op_equalverify ∷ [])) lock pk sig
                (append_assoc pre' (op_equalverify ∷ []) (op_checksig ∷ []) ∙ e))
        | inr other ↦ rw other (
            run_at-err crypto tx tx_in_idx (suc fuel) pre' (op_checksig ∷ []) op_equalverify
              (length pre) (a ∷ b ∷ pk ∷ sig ∷ []) script_equal_verify (omega arith)
              (exec false other))
      ]

  -- The locking script, behind any script, on a stack with a key and a signature.
  run_at-lock :
      (fuel : ℕ) (pre h pk sig : List ℕ)
      → length h ≤ 0xffff
      → run_at crypto tx tx_in_idx
          (suc (suc (suc (suc (suc fuel)))))
          pre
          (pay_to_pub_key_hash_script h)
          (length pre)
          (pk ∷ sig ∷ [])
        ≡ (if bytes_equal (crypto.hash160 pk) h
            then ok (
                bool_operand (verify_sig crypto sig pk (pay_to_pub_key_hash_script h) tx tx_in_idx)
                ∷ [])
            else err script_equal_verify)
  run_at-lock fuel pre h pk sig short =
      let tail : Script = op_equalverify ∷ op_checksig ∷ [] in
      let operand : Script = operand_prefix (length h) ++ (h ++ tail) in
      let hash = crypto.hash160 pk in
      let pre1 = pre ++ (op_dup ∷ []) in
      let pre2 = pre1 ++ (op_hash160 ∷ []) in
      ap
        (λ k.
          run_at crypto tx tx_in_idx (suc (suc (suc (suc (suc fuel))))) pre k (length pre)
            (pk ∷ sig ∷ []))
        (lock_shape h)
      ∙ run_at-op crypto tx tx_in_idx (suc (suc (suc (suc fuel)))) pre (op_hash160 ∷ operand) op_dup
          (length pre) (pk ∷ sig ∷ []) (length pre, pk ∷ pk ∷ sig ∷ []) (omega arith)
          (exec_op-dup (pre ++ (op_dup ∷ op_hash160 ∷ operand)) (length pre + 1) (length pre) pk
            sig)
      ∙ run_at-op crypto tx tx_in_idx (suc (suc (suc fuel))) pre1 operand op_hash160 (length pre)
          (pk ∷ pk ∷ sig ∷ []) (length pre, hash ∷ pk ∷ sig ∷ []) (omega arith)
          (exec_op-hash160 (pre1 ++ (op_hash160 ∷ operand)) (length pre1 + 1) (length pre) pk pk
            sig)
      ∙ run_at-push crypto tx tx_in_idx (suc (suc fuel)) pre2 h tail (length pre)
          (hash ∷ pk ∷ sig ∷ []) short
      ∙ unfold push in
        run_at-verify fuel pre (pre2 ++ (operand_prefix (length h) ++ h))
          (pay_to_pub_key_hash_script h) h hash pk sig (rw (lock_shape h) (simp append_assoc))

  -- The unlocking script.
  eval_loop-unlock :
      (fuel : ℕ) (sig pk lock : List ℕ)
      → length sig ≤ 0xffff
      → length pk ≤ 0xffff
      → eval_loop crypto
          (suc (suc (suc fuel)))
          (cat_script (signature_script sig pk) lock)
          tx
          tx_in_idx
          0
          0
          []
        ≡ run_at crypto tx tx_in_idx fuel
            (unlock sig pk)
            lock
            (length (unlock sig pk))
            (pk ∷ sig ∷ [])
  unfolding run_at unlock push
  eval_loop-unlock fuel sig pk lock hs hk =
      let rest2 = op_codeseparator ∷ lock in
      let rest1 = operand_prefix (length pk) ++ (pk ++ rest2) in
      let pre1 : Script = operand_prefix (length sig) ++ sig in
      let pre2 = pre1 ++ (operand_prefix (length pk) ++ pk) in
      let pre3 = pre2 ++ (op_codeseparator ∷ []) in
      ap (λ k. eval_loop crypto (suc (suc (suc fuel))) k tx tx_in_idx 0 0 [])
        (cat_shape sig pk lock)
      ∙ run_at-push crypto tx tx_in_idx (suc (suc fuel)) [] sig rest1 0 [] hs
      ∙ run_at-push crypto tx tx_in_idx (suc fuel) pre1 pk rest2 0 (push sig []) hk
      ∙ run_at-op crypto tx tx_in_idx fuel pre2 lock op_codeseparator 0 (push pk (push sig []))
          (length pre2 + 1, push pk (push sig [])) (omega arith)
          (exec_op-codeseparator (pre2 ++ rest2) (length pre2 + 1) 0 (push pk (push sig [])))
      ∙ ap (λ (k : ℕ). run_at crypto tx tx_in_idx fuel pre3 lock k (push pk (push sig [])))
          (omega (arith, length-append pre2 (op_codeseparator ∷ [])))
      ∙ ap (λ p. run_at crypto tx tx_in_idx fuel p lock (length p) (push pk (push sig [])))
          (unlock_shape sig pk)

  -- The run of the two scripts together.
  evaluate-pay_to_key :
      (sig pk h : List ℕ)
      → length sig ≤ 0xffff
      → length pk ≤ 0xffff
      → length h ≤ 0xffff
      → evaluate crypto
          (cat_script (signature_script sig pk) (pay_to_pub_key_hash_script h))
          tx
          tx_in_idx
        ≡ outcome
            (bytes_equal (crypto.hash160 pk) h)
            (verify_sig crypto sig pk (pay_to_pub_key_hash_script h) tx tx_in_idx)
  unfolding evaluate
  evaluate-pay_to_key sig pk h hs hk hh =
      let lock = pay_to_pub_key_hash_script h in
      let s = cat_script (signature_script sig pk) lock in
      let n = length s - 8 in
      let fuel : length s ≡ suc (suc (suc (suc (suc (suc (suc (suc n))))))) =
        omega (arith, length-cat sig pk h) in
      ap (λ k. ◌>>=◌ {B = Unit {0}} (eval_loop crypto k s tx tx_in_idx 0 0 []) validate_top) fuel
      ∙ ap (λ r. ◌>>=◌ {B = Unit {0}} r validate_top)
          (eval_loop-unlock (suc (suc (suc (suc (suc n))))) sig pk lock hs hk
            ∙ run_at-lock n (unlock sig pk) h pk sig hh)
      ∙ validate_top-outcome (bytes_equal (crypto.hash160 pk) h)
          (verify_sig crypto sig pk lock tx tx_in_idx)

-- A pay-to-public-key-hash output that is spent with a signature and a public key: `Validate`
-- succeeds exactly when the key hashes to the output's hash and the signature verifies against the
-- locking script alone; otherwise the error names the check that failed, the hash first. The three
-- byte strings are at most 0xffff long each.
pub validate-pay_to_pub_key_hash :
    (crypto : Crypto) (tx : Transaction) (tx_in_idx : ℕ) (sig pk h : List ℕ)
    → length sig ≤ 0xffff
    → length pk ≤ 0xffff
    → length h ≤ 0xffff
    → validate crypto (signature_script sig pk) (pay_to_pub_key_hash_script h) tx tx_in_idx ≡ (
        if bytes_equal (crypto.hash160 pk) h
        then if verify_sig crypto sig pk (pay_to_pub_key_hash_script h) tx tx_in_idx
          then ok tt
          else err final_top_stack_ele_false
        else err script_equal_verify)
unfolding validate
validate-pay_to_pub_key_hash crypto tx tx_in_idx sig pk h hs hk hh =
    unfold outcome in
    rw (not_script_hash h) (
      ap (λ r. ◌>>=◌ {B = Unit {0}} r (λ _. ok tt))
        (evaluate-pay_to_key crypto tx tx_in_idx sig pk h hs hk hh)
      ∙ outcome-ok (bytes_equal (crypto.hash160 pk) h)
          (verify_sig crypto sig pk (pay_to_pub_key_hash_script h) tx tx_in_idx))
