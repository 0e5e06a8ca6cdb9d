-- ===== src/Script/Address.antt =====
-- script/script.go: the type of a locking script and the address in it, and scripts of split
-- addresses. An address is its hash.
pub mod KeyHash
mod Tests
use boxd.Prelude.{
  ℕ, zero, suc, ◌+◌, ◌-◌, ◌%◌, Bool, true, false, not, ◌||◌, Option, none, some, List, [], ◌∷◌,
  ◌++◌, length, bytes_equal, ltb, ◌==◌, if◌then◌else◌,
}
use boxd.Prelude.Result.{Result, ok, err, panic, out_of_fuel, ◌>>=◌}
use boxd.Script.Builder.{Script, add_op_code, add_operand, add_script}
use boxd.Script.Bytes.{put_uint, uint}
use boxd.Script.Contract.{parse_contract_addr}
use boxd.Script.Error.{Error, script_bound, address_not_applicable, invalid_split_addr_script}
use boxd.Script.Opcode.{OpCode, op_0, op_return}
use boxd.Script.Reader.{get_nth_op, address_from_hash}
use boxd.Script.Standard.{
  max_split_addrs, is_pay_to_pub_key_hash, is_pay_to_pub_key_hash_cltv_script,
  is_pay_to_script_hash, is_split_addr_script, is_contract_pubkey, is_op_return_script,
}
use boxd.Script.Token.{is_token_issue, is_token_transfer}

pub data PubkType : Type 0 where
  unknown_pubk : PubkType
  pay_to_pubk : PubkType
  token_transfer_pubk : PubkType
  token_issue_pubk : PubkType
  contract_pubk : PubkType
  split_addr_pubk : PubkType
  pay_to_pubk_cltv : PubkType
  pay_to_script_pubk : PubkType
  op_return_pubk : PubkType

unfoldable pub pubk_type : Script → PubkType
pubk_type s =
    if is_pay_to_pub_key_hash s
    then pay_to_pubk
    else if is_token_transfer s
    then token_transfer_pubk
    else if is_token_issue s
    then token_issue_pubk
    else if is_contract_pubkey s
    then contract_pubk
    else if is_split_addr_script s
    then split_addr_pubk
    else if is_pay_to_pub_key_hash_cltv_script s
    then pay_to_pubk_cltv
    else if is_pay_to_script_hash s
    then pay_to_script_pubk
    else if is_op_return_script s
    then op_return_pubk
    else unknown_pubk

-- The kinds of types.Address; the address of a contract that is deployed is missing.
pub data Address : Type 0 where
  pub_key_hash : List ℕ → Address
  split : List ℕ → Address
  contract : Option (List ℕ) → Address

-- The hash that is the operand at `pc`.
unfoldable pub hash_at : Script → ℕ → Result Error (List ℕ)
hash_at s pc = do (op_code, hash, new_pc) ← get_nth_op s pc 0; address_from_hash hash

unfoldable pub extract_address : Script → Result Error Address
unfolding hash_at pubk_type
extract_address s = elim (pubk_type s) [
  | pay_to_pubk ↦ do hash ← hash_at s 2; ok (pub_key_hash hash)
  | token_transfer_pubk ↦ do hash ← hash_at s 2; ok (pub_key_hash hash)
  | token_issue_pubk ↦ do hash ← hash_at s 2; ok (pub_key_hash hash)
  | contract_pubk ↦ do address ← parse_contract_addr s; ok (contract address)
  | split_addr_pubk ↦ do hash ← hash_at s 2; ok (split hash)
  | pay_to_pubk_cltv ↦ do hash ← hash_at s (length s - 23); ok (pub_key_hash hash)
  | pay_to_script_pubk ↦ do hash ← hash_at s 1; ok (pub_key_hash hash)
  | _ ↦ err address_not_applicable
]

unfoldable pub is_standard : Script → Bool
unfolding extract_address
is_standard s = elim (extract_address s) [ ok address ↦ true | _ ↦ is_op_return_script s ]

-- The addresses and weights, each an operand.
pub add_pairs : Script → List (List ℕ) → List ℕ → Script
unfolding add_operand put_uint
add_pairs s [] weights = s
add_pairs s (addr ∷ addrs) [] = s
add_pairs s (addr ∷ addrs) (w ∷ weights) =
    add_pairs (add_operand (add_operand s addr) (put_uint 4 w)) addrs weights

module _ (hash160 : List ℕ → List ℕ) where
  -- A nil script is `none`.
  unfoldable pub split_addr_script : List (List ℕ) → List ℕ → Option Script
  unfolding add_pairs add_op_code add_operand add_script
  split_addr_script addrs weights =
      if length addrs == 0
        || (not (length addrs == length weights) || ltb max_split_addrs (length addrs))
      then none
      else let s = add_pairs [] addrs weights in
        some (add_script (add_operand (add_op_code (add_op_code [] op_return) op_0) (hash160 s)) s)

  -- for i := 0; ; i++: the i-th operand behind `pc` is an address or a weight, until the script's
  -- end.
  pub pairs_loop :
      ℕ → Script → ℕ → ℕ → List (List ℕ) → List ℕ → Result Error (List (List ℕ) × List ℕ)
  pairs_loop zero s pc i addrs weights = out_of_fuel
  pairs_loop (suc fuel) s pc i addrs weights = elim (get_nth_op s pc i) [
    | err script_bound ↦ ok (addrs, weights)
    | ok (op_code, operand, new_pc) ↦
        if i % 2 == 0
        then if length operand == 20
          then pairs_loop fuel s pc (i + 1) (addrs ++ (operand ∷ [])) weights
          else err invalid_split_addr_script
        else if not (length operand == 4)
        then err invalid_split_addr_script
        else pairs_loop fuel s pc (i + 1) addrs (weights ++ (uint operand ∷ []))
    | _ ↦ err invalid_split_addr_script
  ]

  -- An address without a weight makes the code index past the weights.
  unfoldable pub finish_split_addr :
      List ℕ → List (List ℕ) × List ℕ → Result Error (List (List ℕ) × List ℕ)
  unfolding add_pairs
  finish_split_addr operand_hash (addrs, weights) =
      if ltb max_split_addrs (length addrs)
      then err invalid_split_addr_script
      else if ltb (length weights) (length addrs)
      then panic
      else if not (bytes_equal (hash160 (add_pairs [] addrs weights)) operand_hash)
      then err invalid_split_addr_script
      else ok (addrs, weights)

  -- The operand that must be the hash, and the counter behind it.
  split_addr_hash : Script → Result Error (List ℕ × ℕ)
  split_addr_hash s = do
    (first, operand1, pc1) ← get_nth_op s 0 0
    if not (first == op_return) then err invalid_split_addr_script else do
      (second, operand2, pc2) ← get_nth_op s pc1 0
      if not (second == op_0) then err invalid_split_addr_script else do
        (third, operand_hash, pc3) ← get_nth_op s pc2 0
        if not (length operand_hash == 20)
            then err invalid_split_addr_script
            else ok (operand_hash, pc3)

  -- Every error before the pairs is the same one. Each operand takes a byte, so the script's length
  -- and one more round are enough.
  unfoldable pub parse_split_addr_script : Script → Result Error (List (List ℕ) × List ℕ)
  unfolding split_addr_hash pairs_loop finish_split_addr
  parse_split_addr_script s = elim (split_addr_hash s) [
    | ok (operand_hash, pc) ↦ do
      pairs ← pairs_loop (suc (length s)) s pc 0 [] []
      finish_split_addr operand_hash pairs
    | _ ↦ err invalid_split_addr_script
  ]

-- What a caller that drops the error of `getNthOp` goes on with.
unfoldable pub ignoring_error : Result Error (OpCode × List ℕ × ℕ) → OpCode × List ℕ × ℕ
ignoring_error (ok r) = r
ignoring_error _ = (0, [], 0)

-- The second opcode is read at 1, and errors are dropped.
unfoldable pub get_split_addr_script_prefix : Script → Script
unfolding add_op_code add_operand ignoring_error
get_split_addr_script_prefix s =
    let first = ignoring_error (get_nth_op s 0 0) in
    let second = ignoring_error (get_nth_op s 1 0) in
    let third = ignoring_error (get_nth_op s second.2 0) in
    add_operand (add_op_code (add_op_code [] first.0) second.0) third.1
