-- ===== src/Script/Token.antt =====
-- script/token.go: scripts that issue and transfer tokens. A string is its bytes.
pub mod RoundTrip
mod Tests
use boxd.Prelude.{
  ℕ, zero, suc, Bool, true, false, not, ◌&&◌, ◌||◌, Option, none, some, List, [], ◌∷◌, length,
  get_elem?, get_or, take, drop, bytes_equal, ltb, ◌==◌, if◌then◌else◌,
}
use boxd.Prelude.Result.{Result, ok, err, panic, ◌>>=◌}
use boxd.Script.Builder.{Script, add_op_code, add_operand, pay_to_pub_key_hash_script}
use boxd.Script.Bytes.{put_uint}
use boxd.Script.Error.{Error, tx_hash_size}
use boxd.Script.Opcode.{OpCode, op_drop}
use boxd.Script.Parser.{Element, operand, op_code, failure, parse}
use boxd.Script.Reader.{get_nth_op, word}
use boxd.Script.Standard.{p2pkh_script_len, is_pay_to_pub_key_hash}
use boxd.Script.Stack.{Operand}
use boxd.Types.Transaction.{OutPoint}

-- "Name"
abbrev pub token_name_key : Operand
token_name_key = 78 ∷ 97 ∷ 109 ∷ 101 ∷ []

-- "Symbol"
abbrev pub token_symbol_key : Operand
token_symbol_key = 83 ∷ 121 ∷ 109 ∷ 98 ∷ 111 ∷ 108 ∷ []

-- "Amount"
abbrev pub token_amount_key : Operand
token_amount_key = 65 ∷ 109 ∷ 111 ∷ 117 ∷ 110 ∷ 116 ∷ []

-- "Decimals"
abbrev pub token_decimals_key : Operand
token_decimals_key = 68 ∷ 101 ∷ 99 ∷ 105 ∷ 109 ∷ 97 ∷ 108 ∷ 115 ∷ []

-- "TokenTxHash"
abbrev pub token_tx_hash_key : Operand
token_tx_hash_key = 84 ∷ 111 ∷ 107 ∷ 101 ∷ 110 ∷ 84 ∷ 120 ∷ 72 ∷ 97 ∷ 115 ∷ 104 ∷ []

-- "TokenTxOutIdx"
abbrev pub token_tx_out_idx_key : Operand
token_tx_out_idx_key = 84 ∷ 111 ∷ 107 ∷ 101 ∷ 110 ∷ 84 ∷ 120 ∷ 79 ∷ 117 ∷ 116 ∷ 73 ∷ 100 ∷ 120 ∷ []

pub record IssueParams : Type 0 where
  pub name : List ℕ
  pub symbol : List ℕ
  pub total_supply : ℕ
  pub decimals : ℕ

pub record TransferParams : Type 0 where
  pub token_id : OutPoint
  pub amount : ℕ

-- <key> OP_DROP <value> OP_DROP
unfoldable pub add_param : Script → Operand → Operand → Script
unfolding add_op_code add_operand
add_param s key value =
    add_op_code (add_operand (add_op_code (add_operand s key) op_drop) value) op_drop

unfoldable pub issue_token_script : List ℕ → IssueParams → Script
unfolding add_param pay_to_pub_key_hash_script put_uint
issue_token_script addr_hash params =
    add_param
      (add_param
        (add_param (add_param (pay_to_pub_key_hash_script addr_hash) token_name_key params.name)
          token_symbol_key params.symbol)
        token_amount_key (put_uint 8 params.total_supply))
      token_decimals_key (params.decimals ∷ [])

-- The first byte of an operand; an empty one panics.
unfoldable pub first_byte : Operand → Result Error ℕ
first_byte [] = panic
first_byte (b ∷ rest) = ok b

unfoldable pub get_issue_params : Script → Result Error IssueParams
unfolding first_byte
get_issue_params s = do
  (op1, name, pc1) ← get_nth_op s 0 7
  (op2, symbol, pc2) ← get_nth_op s pc1 3
  (op3, supply, pc3) ← get_nth_op s pc2 3
  total_supply ← word 8 supply
  (op4, last, pc4) ← get_nth_op s pc3 3
  decimals ← first_byte last
  ok (record { name = name; symbol = symbol; total_supply = total_supply; decimals = decimals })

unfoldable pub transfer_token_script : List ℕ → TransferParams → Script
unfolding add_param pay_to_pub_key_hash_script put_uint
transfer_token_script addr_hash params =
    add_param
      (add_param
        (add_param (pay_to_pub_key_hash_script addr_hash) token_tx_hash_key params.token_id.hash)
        token_tx_out_idx_key (put_uint 4 params.token_id.index))
      token_amount_key (put_uint 8 params.amount)

-- A longer hash is cut to its first 32 bytes, a shorter one is refused.
unfoldable pub get_transfer_params : Script → Result Error TransferParams
get_transfer_params s = do
  (op1, hash, pc1) ← get_nth_op s 0 7
  if ltb (length hash) 32 then err tx_hash_size else do
    (op2, idx, pc2) ← get_nth_op s pc1 3
    index ← word 4 idx
    (op3, last, pc3) ← get_nth_op s pc2 3
    amount ← word 8 last
    ok (record { token_id = record { hash = take 32 hash; index = index }; amount = amount })

-- The i-th element is the operand `key`; an opcode or an error counts as a nil operand.
unfoldable pub is_key : List Element → ℕ → Operand → Bool
is_key r i key = elim (get_elem? r i) [ some (operand o) ↦ bytes_equal o key | _ ↦ false ]

unfoldable pub is_drop : List Element → ℕ → Bool
is_drop r i = elim (get_elem? r i) [ some (op_code v) ↦ v == op_drop | _ ↦ false ]

-- The key at 4 * k, with an OP_DROP behind it and one behind the value.
unfoldable pub is_param : List Element → ℕ → Operand → Bool
unfolding is_key is_drop
is_param r i key = is_key r i key && (is_drop r (suc i) && is_drop r (suc (suc (suc i))))

unfoldable pub is_token_issue : Script → Bool
unfolding is_param
is_token_issue s =
    if ltb (length s) p2pkh_script_len
    then false
    else if not (is_pay_to_pub_key_hash (take p2pkh_script_len s))
    then false
    else let r = parse (drop p2pkh_script_len s) in
      length r == 16
      && (is_param r 0 token_name_key
          && (is_param r 4 token_symbol_key
              && (is_param r 8 token_amount_key && is_param r 12 token_decimals_key)))

unfoldable pub is_token_transfer : Script → Bool
unfolding is_param
is_token_transfer s =
    if ltb (length s) p2pkh_script_len
    then false
    else if not (is_pay_to_pub_key_hash (take p2pkh_script_len s))
    then false
    else let r = parse (drop p2pkh_script_len s) in
      length r == 12
      && (is_param r 0 token_tx_hash_key
          && (is_param r 4 token_tx_out_idx_key && is_param r 8 token_amount_key))
