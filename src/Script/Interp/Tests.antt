-- ===== src/Script/Interp/Tests.antt =====
-- Runs of scripts, and the theorems on them at concrete ones. In place of the cryptography, a key
-- hashes to its length, 20 times over, and a signature verifies with a key that has the same bytes.
use boxd.Prelude.{
  ℕ, ◌≡◌, ◌⊎◌, refl, Bool, false, drop, none, some, List, [], ◌∷◌, length, replicate, bytes_equal,
  arith,
}
use boxd.Prelude.Result.{ok, err}
use boxd.Script.Builder.{signature_script, pay_to_pub_key_hash_script}
use boxd.Script.Error.{Error}
use boxd.Script.Interp.{exec_op, validate}
use boxd.Script.Interp.MultiSigVerify.{exec_op-checkmultisigverify}
use boxd.Script.Interp.PayToKey.{validate-pay_to_pub_key_hash}
use boxd.Script.Interp.Termination.{validate_ends}
use boxd.Script.MultiSig.Check.{multi_sig_stack}
use boxd.Script.MultiSig.Greedy.{Matches, greedy, greedy_complete}
use boxd.Script.Opcode.{op_checkmultisigverify}
use boxd.Script.Bytes.{big_of_bytes}
use boxd.Script.Stack.{Operand, operand_false}
use boxd.Script.Signature.{Crypto, calc_tx_hash_for_sig, verify_sig}
use boxd.Types.Transaction.{Transaction}

abbrev stand_in : Crypto
stand_in = record {
  Sig = List ℕ;
  Key = List ℕ;
  hash160 = λ key. replicate 20 (length key);
  sig_from_bytes = some;
  public_key_from_bytes = some;
  verify_signature = λ sig key hash. bytes_equal sig key;
  calc_tx_hash = λ tx. some [];
}

abbrev some_tx : Transaction
some_tx = record {
  version = 1;
  vin =
      record { prev_out_point = record { hash = []; index = 0 }; script_sig = []; sequence = 0 }
      ∷ [];
  vout = [];
  payload = none;
  magic = 0;
  lock_time = 0;
}

abbrev some_key : List ℕ
some_key = 2 ∷ 3 ∷ 5 ∷ []

abbrev key_hash : List ℕ
key_hash = replicate 20 3

-- The signature verifies.
validate-pay_to_pub_key_hash_example :
    validate stand_in
      (signature_script some_key some_key)
      (pay_to_pub_key_hash_script key_hash)
      some_tx
      0
    ≡ ok tt
unfolding verify_sig calc_tx_hash_for_sig bytes_equal
validate-pay_to_pub_key_hash_example =
    validate-pay_to_pub_key_hash stand_in some_tx 0 some_key some_key key_hash (omega arith)
      (omega arith) (omega arith)

validate_ends_example :
    (validate stand_in (0x51 ∷ 0xac ∷ []) (0x4c ∷ 9 ∷ []) some_tx 0 ≡ ok tt)
    ⊎ ((e : Error) × (validate stand_in (0x51 ∷ 0xac ∷ []) (0x4c ∷ 9 ∷ []) some_tx 0 ≡ err e))
validate_ends_example = validate_ends stand_in (0x51 ∷ 0xac ∷ []) (0x4c ∷ 9 ∷ []) some_tx 0

abbrev verifies : Operand → Operand → Bool
verifies sig key = verify_sig stand_in sig key (drop {A = ℕ} 0 (0xaf ∷ [])) some_tx 0

refused : greedy verifies ((6 ∷ []) ∷ []) ((5 ∷ []) ∷ []) ≡ false
unfolding greedy verify_sig calc_tx_hash_for_sig bytes_equal
refused = refl

-- A signature that the one key does not verify.
unmatched : ¬ Matches verifies ((6 ∷ []) ∷ []) ((5 ∷ []) ∷ [])
unmatched m = cc (refused, greedy_complete verifies _ _ m)

exec_op-checkmultisigverify_example :
    exec_op stand_in
      (0xaf ∷ [])
      op_checkmultisigverify
      []
      some_tx
      0
      1
      0
      (multi_sig_stack (1 ∷ []) ((5 ∷ []) ∷ []) (1 ∷ []) ((6 ∷ []) ∷ []) [])
    ≡ ok (0, operand_false ∷ [])
exec_op-checkmultisigverify_example =
    exec_op-checkmultisigverify stand_in (0xaf ∷ []) some_tx 0 1 0 (1 ∷ []) ((5 ∷ []) ∷ []) (1 ∷ [])
      ((6 ∷ []) ∷ []) [] (omega arith) (unfold big_of_bytes in refl) (unfold big_of_bytes in refl)
      (omega arith) (omega arith) unmatched
