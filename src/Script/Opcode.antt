-- ===== src/Script/Opcode.antt =====
-- script/opcode.go: the opcodes that the code names. An `OpCode` is a byte.
use Prim.Native.Nat.{ℕ}

abbrev pub OpCode : Type 0
OpCode = ℕ

abbrev pub op_0 : OpCode
op_0 = 0x00

abbrev pub op_data_20 : OpCode
op_data_20 = 0x14

abbrev pub op_pushdata1 : OpCode
op_pushdata1 = 0x4c

abbrev pub op_pushdata2 : OpCode
op_pushdata2 = 0x4d

abbrev pub op_pushdata4 : OpCode
op_pushdata4 = 0x4e

abbrev pub op_1negate : OpCode
op_1negate = 0x4f

abbrev pub op_reserved : OpCode
op_reserved = 0x50

abbrev pub op_1 : OpCode
op_1 = 0x51

abbrev pub op_16 : OpCode
op_16 = 0x60

abbrev pub op_return : OpCode
op_return = 0x6a

abbrev pub op_drop : OpCode
op_drop = 0x75

abbrev pub op_dup : OpCode
op_dup = 0x76

abbrev pub op_equal : OpCode
op_equal = 0x87

abbrev pub op_equalverify : OpCode
op_equalverify = 0x88

abbrev pub op_add : OpCode
op_add = 0x93

abbrev pub op_sub : OpCode
op_sub = 0x94

abbrev pub op_hash160 : OpCode
op_hash160 = 0xa9

abbrev pub op_codeseparator : OpCode
op_codeseparator = 0xab

abbrev pub op_checksig : OpCode
op_checksig = 0xac

abbrev pub op_checksigverify : OpCode
op_checksigverify = 0xad

abbrev pub op_checkmultisig : OpCode
op_checkmultisig = 0xae

abbrev pub op_checkmultisigverify : OpCode
op_checkmultisigverify = 0xaf

abbrev pub op_checklocktimeverify : OpCode
op_checklocktimeverify = 0xb0

abbrev pub op_contract : OpCode
op_contract = 0xb1
