-- ===== src/TxLogic/Kind.antt =====
-- core/txlogic/tx_utils.go: the type of a transaction, from the shapes of its outputs. The code
-- keeps it in the transaction's field Type, which `tag` stands for; the parser sets it on the way.
pub mod Cached
mod Tests
use boxd.Prelude.{
  ℕ, ◌+◌, suc, Bool, true, false, not, Option, none, some, List, [], ◌∷◌, ltb, ◌==◌, if◌then◌else◌,
}
use boxd.Prelude.Result.{Result, ok, err, panic, out_of_fuel, ◌>>=◌}
use boxd.Chain.Error.{ChainError}
use boxd.Chain.UtxoSet.{hash160}
use boxd.Script.Address.{PubkType, pubk_type, extract_address}
use boxd.Script.Address
use boxd.Types.Block.{
  unknown_tx, pay_to_pubk_tx, contract_tx, token_issue_tx, token_transfer_tx, split_tx, error_tx,
}
use boxd.Types.Transaction.{TxOut}

-- One round of the loop over the outputs: it ends with an error and leaves a tag, or goes on with a
-- tag, an index and a number of OP_RETURN outputs.
pub data Round : Type 0 where
  stop : ℕ → Round
  go_on : ℕ → ℕ → ℕ → Round

-- The returned type and index, and the tag that is left.
pub record Parsed : Type 0 where
  pub kind : ℕ
  pub idx : ℕ
  pub tag : ℕ

-- Whether the address of a plain output is a contract's; none when it has no address. Without a
-- state database no address is one.
unfoldable pub pays_contract : Option (List ℕ → Bool) → List ℕ → Result ChainError (Option Bool)
unfolding hash160
pays_contract statedb script = elim (extract_address script) [
  | err e ↦ ok none
  | panic ↦ panic
  | out_of_fuel ↦ out_of_fuel
  | ok address ↦ elim statedb [
    | none ↦ ok (some false)
    | some is_contract_addr ↦ elim (hash160 address) [
      | none ↦ panic
      | some addr ↦ ok (some (is_contract_addr addr))
    ]
  ]
]

unfoldable pub one_op_return : ℕ → ℕ → ℕ → Round
one_op_return tag idx op_returns =
    if ltb 1 (suc op_returns) then stop error_tx else go_on tag idx (suc op_returns)

-- An output behind one that has set the type.
unfoldable pub typed_round : Option (List ℕ → Bool) → ℕ → ℕ → ℕ → List ℕ → Result ChainError Round
unfolding pays_contract one_op_return
typed_round statedb tag idx op_returns script = elim (pubk_type script) [
  | Address.token_transfer_pubk ↦
      ok (if not (tag == token_transfer_tx) then stop tag else go_on tag idx op_returns)
  | Address.pay_to_pubk ↦ do
    paid ← pays_contract statedb script
    ok (elim paid [
      | none ↦ stop error_tx
      | some true ↦ stop tag
      | some false ↦ go_on tag idx op_returns
    ])
  | Address.pay_to_pubk_cltv ↦ ok (go_on tag idx op_returns)
  | Address.pay_to_script_pubk ↦ ok (go_on tag idx op_returns)
  | Address.op_return_pubk ↦ ok (one_op_return tag idx op_returns)
  | _ ↦ ok (stop error_tx)
]

-- The output `i`, while the type is unknown.
unfoldable pub untyped_round : Option (List ℕ → Bool) → ℕ → ℕ → ℕ → List ℕ → Result ChainError Round
unfolding pays_contract one_op_return
untyped_round statedb i idx op_returns script = elim (pubk_type script) [
  | Address.pay_to_pubk_cltv ↦ ok (go_on unknown_tx idx op_returns)
  | Address.pay_to_script_pubk ↦ ok (go_on unknown_tx idx op_returns)
  | Address.pay_to_pubk ↦ do
    paid ← pays_contract statedb script
    ok (elim paid [
      | none ↦ stop error_tx
      | some true ↦ go_on contract_tx i op_returns
      | some false ↦ go_on unknown_tx idx op_returns
    ])
  | Address.unknown_pubk ↦ ok (stop error_tx)
  | Address.token_transfer_pubk ↦ ok (go_on token_transfer_tx i op_returns)
  | Address.token_issue_pubk ↦ ok (go_on token_issue_tx i op_returns)
  | Address.contract_pubk ↦ ok (go_on contract_tx i op_returns)
  | Address.split_addr_pubk ↦ ok (go_on split_tx i op_returns)
  | Address.op_return_pubk ↦ ok (one_op_return unknown_tx idx op_returns)
]

unfoldable pub round : Option (List ℕ → Bool) → ℕ → ℕ → ℕ → ℕ → List ℕ → Result ChainError Round
unfolding typed_round untyped_round
round statedb tag i idx op_returns script =
    if not (tag == unknown_tx)
    then typed_round statedb tag idx op_returns script
    else untyped_round statedb i idx op_returns script

-- for i, txOut := range tx.Vout
unfoldable pub parse_loop :
    Option (List ℕ → Bool) → ℕ → ℕ → ℕ → ℕ → List TxOut → Result ChainError Parsed
unfolding round
parse_loop statedb tag i idx op_returns [] =
    if tag == unknown_tx
    then ok (record { kind = pay_to_pubk_tx; idx = 0; tag = pay_to_pubk_tx })
    else ok (record { kind = tag; idx = idx; tag = tag })
parse_loop statedb tag i idx op_returns (tx_out ∷ vout) = do
  next ← round statedb tag i idx op_returns tx_out.script_pub_key
  elim next [
    | stop left ↦ ok (record { kind = error_tx; idx = 0; tag = left })
    | go_on new_tag new_idx new_op_returns ↦
        parse_loop statedb new_tag (suc i) new_idx new_op_returns vout
  ]

unfoldable pub parse_tx_type : Option (List ℕ → Bool) → ℕ → List TxOut → Result ChainError Parsed
unfolding parse_loop
parse_tx_type statedb tag vout = parse_loop statedb tag 0 0 0 vout

-- The type, and the tag that is left.
unfoldable pub get_tx_type : Option (List ℕ → Bool) → ℕ → List TxOut → Result ChainError (ℕ × ℕ)
unfolding parse_tx_type
get_tx_type statedb tag vout =
    if not (tag == unknown_tx)
    then ok (tag, tag)
    else do parsed ← parse_tx_type statedb tag vout; ok (parsed.kind, parsed.tag)

unfoldable pub is_standard_tx :
    Option (List ℕ → Bool) → ℕ → List TxOut → Result ChainError (Bool × ℕ)
unfolding parse_tx_type
is_standard_tx statedb tag vout =
    if not (tag == unknown_tx)
    then ok (not (tag == error_tx), tag)
    else do parsed ← parse_tx_type statedb tag vout; ok (not (parsed.kind == error_tx), parsed.tag)
