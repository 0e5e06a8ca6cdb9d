-- ===== src/Chain/Compress/PkScript/Template.antt =====
-- Scripts of the two standard shapes, spelled out from the tests of `isPubKeyHash` and
-- `isScriptHash`.
use boxd.Prelude.{
  ℕ, zero, suc, ◌+◌, ◌≡◌, refl, true, List, [], ◌∷◌, ◌++◌, length, get_or, take, drop, slice,
  take-append-drop, arith,
}
use boxd.Chain.Compress.PkScript.{is_pub_key_hash, is_script_hash}
use boxd.Script.Opcode.{op_dup, op_hash160, op_equalverify, op_checksig, op_equal}

drop-two :
    (n : ℕ) (xs : List ℕ) → length xs ≡ n + 2 → drop n xs ≡ get_or xs n 0 ∷ get_or xs (suc n) 0 ∷ []
drop-two zero (x ∷ y ∷ []) h = refl
drop-two zero [] h = absurd (omega arith)
drop-two zero (x ∷ []) h = absurd (omega arith)
drop-two zero (x ∷ y ∷ z ∷ r) h = absurd (omega arith)
drop-two (suc n) [] h = absurd (omega arith)
drop-two (suc n) (x ∷ xs) h = drop-two n xs (omega arith)

drop-one : (n : ℕ) (xs : List ℕ) → length xs ≡ n + 1 → drop n xs ≡ get_or xs n 0 ∷ []
drop-one zero (x ∷ []) h = refl
drop-one zero [] h = absurd (omega arith)
drop-one zero (x ∷ y ∷ r) h = absurd (omega arith)
drop-one (suc n) [] h = absurd (omega arith)
drop-one (suc n) (x ∷ xs) h = drop-one n xs (omega arith)

pub_key_hash_tests :
    (a b c : ℕ) (r : List ℕ)
    → (is_pub_key_hash (a ∷ b ∷ c ∷ r)).0 ≡ true
    → (a ≡ op_dup)
      × (b ≡ op_hash160)
      × (length r ≡ 20 + 2)
      × (get_or r 20 0 ≡ op_equalverify)
      × (get_or r 21 0 ≡ op_checksig)
      × ((is_pub_key_hash (a ∷ b ∷ c ∷ r)).1 ≡ take 20 r)
unfolding is_pub_key_hash
pub_key_hash_tests a b c r h = ground arith

script_hash_tests :
    (a b : ℕ) (r : List ℕ)
    → (is_script_hash (a ∷ b ∷ r)).0 ≡ true
    → (a ≡ op_hash160)
      × (length r ≡ 20 + 1)
      × (get_or r 20 0 ≡ op_equal)
      × ((is_script_hash (a ∷ b ∷ r)).1 ≡ take 20 r)
unfolding is_script_hash
script_hash_tests a b r h = ground arith

-- The tests of `isPubKeyHash` leave the third byte and the hash open.
pub pub_key_hash-shape :
    (s : List ℕ)
    → (is_pub_key_hash s).0 ≡ true
    → (s
        ≡ op_dup
          ∷ op_hash160
          ∷ get_or s 2 0
          ∷ (slice s 3 23 ++ (op_equalverify ∷ op_checksig ∷ [])))
      × (length s ≡ 25)
      × ((is_pub_key_hash s).1 ≡ slice s 3 23)
pub_key_hash-shape [] h = unfold is_pub_key_hash in ground arith
pub_key_hash-shape (a ∷ []) h = unfold is_pub_key_hash in ground arith
pub_key_hash-shape (a ∷ b ∷ []) h = unfold is_pub_key_hash in ground arith
pub_key_hash-shape (a ∷ b ∷ c ∷ r) h =
    let (ea, eb, len, ev, cs, hash) = pub_key_hash_tests a b c r h in
    let tail : take 20 r ++ (op_equalverify ∷ op_checksig ∷ []) ≡ r =
      rw (← ev, ← cs, ← drop-two 20 r len) (take-append-drop 20 r) in
    (rw (ea, eb, tail), omega arith, hash)

-- Those of `isScriptHash` leave the second byte and the hash open.
pub script_hash-shape :
    (s : List ℕ)
    → (is_script_hash s).0 ≡ true
    → (s ≡ op_hash160 ∷ get_or s 1 0 ∷ (slice s 2 22 ++ (op_equal ∷ [])))
      × (length s ≡ 23)
      × ((is_script_hash s).1 ≡ slice s 2 22)
script_hash-shape [] h = unfold is_script_hash in ground arith
script_hash-shape (a ∷ []) h = unfold is_script_hash in ground arith
script_hash-shape (a ∷ b ∷ r) h =
    let (ea, len, ev, hash) = script_hash_tests a b r h in
    let tail : take 20 r ++ (op_equal ∷ []) ≡ r =
      rw (← ev, ← drop-one 20 r len) (take-append-drop 20 r) in
    (rw (ea, tail), omega arith, hash)
