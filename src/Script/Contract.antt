-- ===== src/Script/Contract.antt =====
-- script/script.go: reading the scripts of contracts. An address hash is its 20 bytes; the version
-- is an int32, given by its bit pattern.
pub mod RoundTrip
mod Tests
use boxd.Prelude.{
  ℕ, zero, suc, Bool, true, false, not, ◌||◌, Option, none, some, List, [], length, bytes_equal,
  ltb, ◌==◌, if◌then◌else◌,
}
use boxd.Prelude.Result.{Result, ok, err, ◌>>=◌}
use boxd.Script.Builder.{Script, zero_contract_address}
use boxd.Script.Bytes.{uint}
use boxd.Script.Error.{Error, script_bound, operand_size, invalid_contract_script}
use boxd.Script.Opcode.{OpCode, op_contract}
use boxd.Script.Reader.{get_nth_op, read_uint, address_from_hash}
use boxd.Script.Stack.{Operand}

pub record VmTxParams : Type 0 where
  pub gas_limit : ℕ
  pub nonce : ℕ
  pub version : ℕ
  pub from : List ℕ
  pub to : List ℕ

pub data ContractType : Type 0 where
  contract_unkown_type : ContractType
  contract_creation_type : ContractType
  contract_call_type : ContractType

-- The version and the counter behind it. An error of `readUint32` is dropped: the code tests the
-- error of an earlier call. The version is then 0; the counter is 0 when no operand could be read.
unfoldable pub read_version : Script → ℕ → ℕ × ℕ
read_version s pc = elim (get_nth_op s pc 0) [
  | ok (op_code, operand, new_pc) ↦
      if length operand == 4 then (uint operand, new_pc) else (0, new_pc)
  | _ ↦ (0, 0)
]

-- The test that the script ends at `pc`.
unfoldable pub at_end : Script → ℕ → Bool
at_end s pc = elim (get_nth_op s pc 0) [ err script_bound ↦ true | _ ↦ false ]

unfoldable pub contract_type : List ℕ → ContractType
contract_type to =
    if bytes_equal to zero_contract_address then contract_creation_type else contract_call_type

-- A hash operand of a contract script.
unfoldable pub read_hash : Script → ℕ → Result Error (List ℕ × ℕ)
read_hash s pc = do
  (op_code, operand, new_pc) ← get_nth_op s pc 0
  if length operand == 20 then ok (operand, new_pc) else err invalid_contract_script

-- From the nonce on.
unfoldable pub read_numbers :
    Script → List ℕ → List ℕ → ℕ → Result Error (VmTxParams × ContractType)
unfolding read_version at_end contract_type
read_numbers s from to pc = do
  (nonce, pc1) ← read_uint 8 s pc
  (gas_limit, pc2) ← read_uint 8 s pc1
  let (version, pc3) = read_version s pc2 in
      if at_end s pc3
      then ok (
        record { gas_limit = gas_limit; nonce = nonce; version = version; from = from; to = to },
        contract_type to,
      )
      else err invalid_contract_script

unfoldable pub parse_contract_params : Script → Result Error (VmTxParams × ContractType)
unfolding read_hash read_numbers
parse_contract_params s = elim (get_nth_op s 0 0) [
  | ok (op_code, operand, pc) ↦
      if not (op_code == op_contract)
      then err invalid_contract_script
      else do (from, pc1) ← read_hash s pc; (to, pc2) ← read_hash s pc1; read_numbers s from to pc2
  | _ ↦ err invalid_contract_script
]

unfoldable pub parse_contract_from : Script → Result Error (List ℕ)
parse_contract_from s = do
  (op_code, operand, pc) ← get_nth_op s 1 0
  if not (length operand == 20) then err invalid_contract_script else address_from_hash operand

-- No address for a contract that is deployed.
unfoldable pub parse_contract_addr : Script → Result Error (Option (List ℕ))
parse_contract_addr s = do
  (op_code, operand, pc) ← get_nth_op s 22 0
  if not (length operand == 20)
      then err invalid_contract_script
      else if bytes_equal operand zero_contract_address
      then ok none
      else do hash ← address_from_hash operand; ok (some hash)

unfoldable pub parse_contract_nonce : Script → Result Error ℕ
parse_contract_nonce s = do
  (op_code, operand, pc) ← get_nth_op s 43 0
  if not (length operand == 8) then err operand_size else ok (uint operand)

unfoldable pub parse_contract_gas : Script → Result Error ℕ
parse_contract_gas s = do
  (op_code, operand, pc) ← get_nth_op s 52 0
  if not (length operand == 8) then err operand_size else ok (uint operand)

unfoldable pub parse_contract_info : Script → Result Error (List ℕ × Option (List ℕ) × ℕ)
unfolding parse_contract_from parse_contract_addr parse_contract_nonce
parse_contract_info s = do
  from ← parse_contract_from s
  contract_address ← parse_contract_addr s
  nonce ← parse_contract_nonce s
  ok (from, contract_address, nonce)
