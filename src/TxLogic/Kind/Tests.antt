-- ===== src/TxLogic/Kind/Tests.antt =====
-- A plain payment, and a transaction with an output of a contract and a token transfer.
use boxd.Prelude.{bytes_equal}
use boxd.Script.Token.{is_token_issue, is_token_transfer}
use boxd.Script.Parser.{parse, parse_next_op}
use boxd.Script.Reader.{address_from_hash, get_nth_op}
use boxd.Script.Standard.{is_contract_pubkey, is_pay_to_pub_key_hash}
use boxd.Script.Address.{extract_address, pubk_type}
use boxd.Prelude.{◌≡◌, refl, true, false, none, List, [], ◌∷◌, ◌++◌, replicate}
use boxd.Prelude.Result.{ok}
use boxd.Script.Builder.{pay_to_pub_key_hash_script}
use boxd.Script.Token.{transfer_token_script}
use boxd.Types.Block.{unknown_tx, pay_to_pubk_tx, contract_tx}
use boxd.Types.Transaction.{TxOut}
use boxd.TxLogic.Kind.{get_tx_type, is_standard_tx}
use boxd.TxLogic.Kind.Cached.{is_standard_tx-kept, is_standard_tx-twice}

abbrev plain : List TxOut
plain = record { value = 1; script_pub_key = pay_to_pub_key_hash_script (replicate 20 5) } ∷ []

is_standard_tx-kept_example :
    (is_standard_tx none pay_to_pubk_tx plain ≡ ok (true, pay_to_pubk_tx))
    × (get_tx_type none pay_to_pubk_tx plain ≡ get_tx_type none unknown_tx plain)
unfolding is_standard_tx pubk_type is_pay_to_pub_key_hash pay_to_pub_key_hash_script extract_address
    get_nth_op parse_next_op address_from_hash
is_standard_tx-kept_example = is_standard_tx-kept none plain pay_to_pubk_tx refl

-- A contract's script with all numbers zero.
abbrev contract_out : TxOut
contract_out = record {
  value = 0;
  script_pub_key =
      (0xb1 ∷ 20 ∷ replicate 20 1)
      ++ ((20 ∷ replicate 20 2)
          ++ ((8 ∷ replicate 8 0) ++ ((8 ∷ replicate 8 0) ++ (4 ∷ replicate 4 0))));
}

abbrev token_out : TxOut
token_out = record {
  value = 0;
  script_pub_key =
      transfer_token_script (replicate 20 5)
        (record { token_id = record { hash = replicate 32 1; index = 0 }; amount = 3 });
}

is_standard_tx-twice_example :
    (is_standard_tx none unknown_tx (contract_out ∷ token_out ∷ []) ≡ ok (false, contract_tx))
    × (is_standard_tx none contract_tx (contract_out ∷ token_out ∷ []) ≡ ok (true, contract_tx))
unfolding pubk_type is_pay_to_pub_key_hash is_token_transfer is_token_issue is_contract_pubkey
    transfer_token_script parse parse_next_op bytes_equal
is_standard_tx-twice_example = is_standard_tx-twice none contract_out token_out [] refl refl
