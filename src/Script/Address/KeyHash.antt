-- ===== src/Script/Address/KeyHash.antt =====
-- The address of a pay-to-public-key-hash script.
use boxd.Prelude.{
  ℕ, ◌≡◌, refl, ap, sym, ◌∙◌, true, List, [], ◌∷◌, ◌++◌, append_assoc, length, length-append,
  get_or, get_or-append, eq→==, lt→ltb, arith,
}
use boxd.Prelude.Result.{ok}
use boxd.Script.Address.{
  pay_to_pubk, pubk_type, pub_key_hash, hash_at, extract_address, is_standard,
}
use boxd.Script.Builder.{Script, operand_prefix, pay_to_pub_key_hash_script}
use boxd.Script.Opcode.{op_dup, op_hash160, op_equalverify, op_checksig}
use boxd.Script.Reader.{get_nth_op, address_from_hash}
use boxd.Script.Reader.Cuts.{get_nth_op-short}
use boxd.Script.Standard.{is_pay_to_pub_key_hash}

module _ (h : List ℕ) (size : length h ≡ 20) where
  lock_bytes :
      pay_to_pub_key_hash_script h
      ≡ op_dup ∷ op_hash160 ∷ 20 ∷ (h ++ (op_equalverify ∷ op_checksig ∷ []))
  unfolding pay_to_pub_key_hash_script operand_prefix
  lock_bytes = rw (lt→ltb (length h) 76 (omega (arith, size)), size) (simp append_assoc)

  lock_length : length (pay_to_pub_key_hash_script h) ≡ 25
  lock_length =
      ap length lock_bytes
      ∙ omega (arith, size, length-append h (op_equalverify ∷ op_checksig ∷ []))

  equalverify_at : get_or (pay_to_pub_key_hash_script h) 23 0 ≡ op_equalverify
  equalverify_at =
      ap (λ (s : Script). get_or s 23 0) lock_bytes
      ∙ get_or-append h op_equalverify (op_checksig ∷ []) 20 0 (sym size)

  checksig_at : get_or (pay_to_pub_key_hash_script h) 24 0 ≡ op_checksig
  checksig_at =
      ap (λ (s : Script). get_or s 24 0) lock_bytes
      ∙ ap (λ (s : Script). get_or s 21 0)
          (sym (append_assoc h (op_equalverify ∷ []) (op_checksig ∷ [])))
      ∙ get_or-append (h ++ (op_equalverify ∷ [])) op_checksig [] 21 0
          (omega (arith, size, length-append h (op_equalverify ∷ [])))

  recognised : is_pay_to_pub_key_hash (pay_to_pub_key_hash_script h) ≡ true
  unfolding is_pay_to_pub_key_hash
  recognised =
      rw
        (
          eq→== (length (pay_to_pub_key_hash_script h)) 25 lock_length,
          equalverify_at,
          checksig_at,
          lock_bytes,
        )
        refl

-- A pay-to-public-key-hash script for a hash of 20 bytes is recognised as one, its address is that
-- hash, and it is standard.
pub extract_address-pay_to_pub_key_hash_script :
    (h : List ℕ)
    → length h ≡ 20
    → (pubk_type (pay_to_pub_key_hash_script h) ≡ pay_to_pubk)
      × (extract_address (pay_to_pub_key_hash_script h) ≡ ok (pub_key_hash h))
      × (is_standard (pay_to_pub_key_hash_script h) ≡ true)
extract_address-pay_to_pub_key_hash_script h size =
    let s = pay_to_pub_key_hash_script h in
    let kind : pubk_type s ≡ pay_to_pubk = unfold pubk_type in rw (recognised h size) refl in
    let read : get_nth_op s 2 0 ≡ ok (20, h, 23) =
      get_nth_op-short s (op_dup ∷ op_hash160 ∷ []) h (op_equalverify ∷ op_checksig ∷ []) 2 20
        (lock_bytes h size) refl size (omega arith) in
    let hash : hash_at s 2 ≡ ok h =
      unfold hash_at address_from_hash in rw (hash_at, read, eq→== (length h) 20 size) refl in
    let address : extract_address s ≡ ok (pub_key_hash h) =
      unfold extract_address in rw (extract_address, kind, hash) refl in
    (kind, address, unfold is_standard in rw (is_standard, address) refl)
