-- ===== src/Script/Error.antt =====
-- script/error.go, and the unnamed errors of stack.go and script.go. `encounter_op_return` is
-- ErrOpReturn, and `not_int64` the error of `Operand.int`;
-- `operand_size` stands for the wrong lengths of a word and `invalid_pk_hash` for ErrInvalidPKHash.
use boxd.Prelude.Result.{Result, err, panic}

pub data Error : Type 0 where
  script_bound : Error
  no_enough_data_op_pushdata1 : Error
  no_enough_data_op_pushdata2 : Error
  no_enough_data_op_pushdata4 : Error
  invalid_stack_operation : Error
  bad_opcode : Error
  script_equal_verify : Error
  script_signature_verify_fail : Error
  input_index_out_of_bound : Error
  encounter_op_return : Error
  address_not_applicable : Error
  invalid_split_addr_script : Error
  script_lock_time_verify_fail : Error
  invalid_contract_script : Error
  invalid_contract_params : Error
  final_stack_empty : Error
  final_top_stack_ele_false : Error
  count_negative : Error
  not_int64 : Error
  operand_size : Error
  invalid_pk_hash : Error
  tx_hash_size : Error

-- How a call stops: with an error, or with the panic of an index or a slice out of range.
pub data Fault : Type 0 where
  failed : Error → Fault
  out_of_range : Fault

abbrev pub stop {ℓ} : {A : Type ℓ} → Fault → Result Error A
stop (failed e) = err e
stop out_of_range = panic
