-- ===== src/Script/Contract/Tests.antt =====
-- Reading contract scripts, and the theorem at a concrete call.
use boxd.Prelude.{ℕ, ◌≡◌, refl, some, List, replicate, arith}
use boxd.Prelude.Result.{ok}
use boxd.Script.Builder.{Script, make_contract_script_pubkey}
use boxd.Script.Contract.{contract_type, parse_contract_params, parse_contract_gas}
use boxd.Script.Contract.RoundTrip.{parse_contract_params-make_contract_script_pubkey}

abbrev sender : List ℕ
sender = replicate 20 7

abbrev receiver : List ℕ
receiver = replicate 20 9

parse_contract_params-make_contract_script_pubkey_example :
    (s : Script) × (make_contract_script_pubkey (some sender) (some receiver) 100 5 0 ≡ ok s)
    × (parse_contract_params s
        ≡ ok (
          record { gas_limit = 100; nonce = 5; version = 0; from = sender; to = receiver },
          contract_type receiver,
        ))
    × (parse_contract_gas s ≡ ok 100)
parse_contract_params-make_contract_script_pubkey_example =
    parse_contract_params-make_contract_script_pubkey sender (some receiver) 100 5 0 refl refl
      (omega arith) (omega arith) (omega arith) (omega arith)
