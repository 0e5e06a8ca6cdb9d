-- ===== src/Script/Builder.antt =====
-- script/script.go: building scripts. A script is its bytes; the methods that extend one in place
-- return the extended script.
use boxd.Prelude.{
  ℕ, ◌/◌, ◌-◌, ◌^◌, Option, none, some, List, [], ◌∷◌, ◌++◌, length, ltb, leb, ◌==◌, replicate,
  if◌then◌else◌,
}
use boxd.Prelude.Result.{Result, ok, err}
use boxd.Script.Bytes.{put_uint, bytes_of_big}
use boxd.Script.Error.{Error, invalid_contract_params}
use boxd.Script.Opcode.{
  OpCode, op_pushdata1, op_pushdata2, op_pushdata4, op_dup, op_hash160, op_equalverify, op_checksig,
  op_checklocktimeverify, op_contract,
}

abbrev pub Script : Type 0
Script = List ℕ

unfoldable pub add_op_code : Script → OpCode → Script
add_op_code s op_code = s ++ (op_code ∷ [])

-- The bytes that say how long an operand is.
unfoldable pub operand_prefix : ℕ → List ℕ
operand_prefix data_len =
    if ltb data_len op_pushdata1
    then data_len ∷ []
    else if leb data_len 0xff
    then op_pushdata1 ∷ data_len ∷ []
    else if leb data_len 0xffff
    then op_pushdata2 ∷ put_uint 2 data_len
    else op_pushdata4 ∷ put_uint 4 data_len

unfoldable pub add_operand : Script → List ℕ → Script
unfolding operand_prefix
add_operand s operand = (s ++ operand_prefix (length operand)) ++ operand

unfoldable pub add_script : Script → Script → Script
add_script s script = s ++ script

unfoldable pub pay_to_pub_key_hash_script : List ℕ → Script
unfolding add_op_code add_operand
pay_to_pub_key_hash_script pub_key_hash =
    add_op_code
      (add_op_code (add_operand (add_op_code (add_op_code [] op_dup) op_hash160) pub_key_hash)
        op_equalverify)
      op_checksig

-- `block_time_or_height` is not negative here: of a negative one the code writes the absolute value.
unfoldable pub pay_to_pub_key_hash_cltv_script : List ℕ → ℕ → Script
unfolding add_op_code add_operand bytes_of_big
pay_to_pub_key_hash_cltv_script pub_key_hash block_time_or_height =
    add_op_code
      (add_op_code
        (add_operand
          (add_op_code
            (add_op_code
              (add_op_code (add_operand [] (bytes_of_big block_time_or_height))
                op_checklocktimeverify)
              op_dup)
            op_hash160)
          pub_key_hash)
        op_equalverify)
      op_checksig

-- The signature is given by its serialized bytes.
unfoldable pub signature_script : List ℕ → List ℕ → Script
unfolding add_operand
signature_script sig_bytes pub_key = add_operand (add_operand [] sig_bytes) pub_key

unfoldable pub standard_coinbase_signature_script : ℕ → Script
unfolding add_operand bytes_of_big
standard_coinbase_signature_script height =
    add_operand (add_operand [] (bytes_of_big height)) (bytes_of_big 0)

abbrev pub fixed_gas_price : ℕ
fixed_gas_price = 50

abbrev pub zero_contract_address : List ℕ
zero_contract_address = replicate 20 0

-- An address hash is 20 bytes; the version is an int32, given by its bit pattern.
unfoldable pub make_contract_script_pubkey :
    Option (List ℕ) → Option (List ℕ) → ℕ → ℕ → ℕ → Result Error Script
unfolding add_op_code add_operand put_uint
make_contract_script_pubkey none to gas_limit nonce version = err invalid_contract_params
make_contract_script_pubkey (some from) to gas_limit nonce version =
    if gas_limit == 0
    then err invalid_contract_params
    else if leb ((2 ^ 63 - 1) / fixed_gas_price) gas_limit
    then err invalid_contract_params
    else let to_hash : List ℕ = elim to [ none ↦ zero_contract_address | some hash ↦ hash ] in
      ok (
        add_operand
          (add_operand
            (add_operand (add_operand (add_operand (add_op_code [] op_contract) from) to_hash)
              (put_uint 8 nonce))
            (put_uint 8 gas_limit))
          (put_uint 4 version))

unfoldable pub make_contract_script_sig : ℕ → Script
unfolding add_op_code add_operand put_uint
make_contract_script_sig nonce = add_operand (add_op_code [] op_contract) (put_uint 8 nonce)
