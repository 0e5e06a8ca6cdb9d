-- ===== src/Script/Token/Tests.antt =====
-- The theorems on token scripts at concrete ones.
use boxd.Prelude.{◌≡◌, refl, [], ◌∷◌, replicate, arith}
use boxd.Prelude.Result.{ok}
use boxd.Script.Token.{
  IssueParams, issue_token_script, get_issue_params, TransferParams, transfer_token_script,
  get_transfer_params,
}
use boxd.Script.Token.RoundTrip.{
  get_issue_params-issue_token_script, get_transfer_params-transfer_token_script,
}

abbrev some_transfer : TransferParams
some_transfer = record { token_id = record { hash = replicate 32 4; index = 2 }; amount = 1_000 }

get_transfer_params-transfer_token_script_example :
    get_transfer_params (transfer_token_script (replicate 20 7) some_transfer) ≡ ok some_transfer
get_transfer_params-transfer_token_script_example =
    get_transfer_params-transfer_token_script (replicate 20 7) some_transfer (omega arith) refl
      (omega arith) (omega arith)

-- A token named "Box" with the symbol "BX".
abbrev some_issue : IssueParams
some_issue = record {
  name = 66 ∷ 111 ∷ 120 ∷ [];
  symbol = 66 ∷ 88 ∷ [];
  total_supply = 3_000_000;
  decimals = 8;
}

get_issue_params-issue_token_script_example :
    get_issue_params (issue_token_script (replicate 20 7) some_issue) ≡ ok some_issue
get_issue_params-issue_token_script_example =
    get_issue_params-issue_token_script (replicate 20 7) some_issue (omega arith) (omega arith)
      (omega arith) (omega arith)
