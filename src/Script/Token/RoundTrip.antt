-- ===== src/Script/Token/RoundTrip.antt =====
-- The parameters of a token script read back.
use boxd.Prelude.{
  ℕ, ◌+◌, ◌^◌, ◌≤◌, ◌<◌, ◌≡◌, refl, ap, sym, ◌∙◌, List, [], ◌∷◌, ◌++◌, append_assoc, length,
  length-append, take, take-append, le→ltb, arith,
}
use mathlib.Core.List.{append-nil}
use boxd.Prelude.Result.{ok}
use boxd.Script.Builder.{Script}
use boxd.Script.Bytes.{put_uint, length-put_uint, uint-put_uint}
use boxd.Script.Items.{
  Item, code, push, item_bytes, script_of, IsItem, item_op, item_operand, get_nth_op-item,
}
use boxd.Script.Opcode.{op_drop, op_dup, op_hash160, op_equalverify, op_checksig}
use boxd.Script.Reader.{get_nth_op, word}
use boxd.Script.Stack.{Operand}
use boxd.Script.Token.{
  IssueParams, first_byte, issue_token_script, get_issue_params, token_name_key, token_symbol_key,
  token_decimals_key, TransferParams, transfer_token_script, get_transfer_params, token_amount_key,
  token_tx_hash_key, token_tx_out_idx_key,
}

-- The items up to the value of the first parameter, and from there to the value of the next.
first_param : Operand → Operand → List Item
first_param addr key =
    code op_dup
    ∷ code op_hash160
    ∷ push addr
    ∷ code op_equalverify
    ∷ code op_checksig
    ∷ push key
    ∷ code op_drop
    ∷ []

next_param : Operand → List Item
next_param key = code op_drop ∷ push key ∷ code op_drop ∷ []

-- A value that is written behind a locking script is the eighth item.
read_first :
    (addr key value rest : List ℕ)
    → length addr ≤ 0xffff
    → length key ≤ 0xffff
    → length value ≤ 0xffff
    → get_nth_op (script_of (first_param addr key) ++ (item_bytes (push value) ++ rest)) 0 7
      ≡ ok (
        item_op (push value),
        value,
        length (script_of (first_param addr key)) + length (item_bytes (push value)),
      )
unfolding IsItem item_operand first_param
read_first addr key value rest ha hk hv =
    get_nth_op-item _ [] rest (first_param addr key) (push value) 0 7
      (omega arith, (omega arith, (ha, (omega arith, (omega arith, (hk, (omega arith, tt))))))) hv
      refl refl refl
    ∙ ap (λ (c : ℕ). ok (item_op (push value), value, c)) (omega arith)

-- Behind a value, the next value is the fourth item.
read_next :
    (s pre key value rest : List ℕ) (pc : ℕ)
    → s ≡ pre ++ (script_of (next_param key) ++ (item_bytes (push value) ++ rest))
    → pc ≡ length pre
    → length key ≤ 0xffff
    → length value ≤ 0xffff
    → get_nth_op s pc 3
      ≡ ok (
        item_op (push value),
        value,
        pc + length (script_of (next_param key)) + length (item_bytes (push value)),
      )
unfolding IsItem item_operand next_param
read_next s pre key value rest pc e ei hk hv =
    get_nth_op-item s pre rest (next_param key) (push value) pc 3
      (omega arith, (hk, (omega arith, tt))) hv e ei refl

-- The place behind a value, and the shape of the script there.
behind :
    (pre mid rest : Script) (m : Operand)
    → pre ++ (mid ++ (item_bytes (push m) ++ rest)) ≡ (pre ++ (mid ++ item_bytes (push m))) ++ rest
behind pre mid rest m =
    ap (λ (t : Script). pre ++ t) (sym (append_assoc mid (item_bytes (push m)) rest))
    ∙ sym (append_assoc pre (mid ++ item_bytes (push m)) rest)

module _ (addr k1 v1 k2 v2 k3 v3 rest : List ℕ) where
  abbrev part1 : Script
  part1 = script_of (first_param addr k1)

  abbrev part2 : Script
  part2 = script_of (next_param k2)

  abbrev part3 : Script
  part3 = script_of (next_param k3)

  abbrev tail3 : Script
  tail3 = part3 ++ (item_bytes (push v3) ++ rest)

  abbrev tail2 : Script
  tail2 = part2 ++ (item_bytes (push v2) ++ tail3)

  abbrev s : Script
  s = part1 ++ (item_bytes (push v1) ++ tail2)

  abbrev place1 : ℕ
  place1 = length part1 + length (item_bytes (push v1))

  abbrev place2 : ℕ
  place2 = place1 + length part2 + length (item_bytes (push v2))

  abbrev place3 : ℕ
  place3 = place2 + length part3 + length (item_bytes (push v3))

  module _ (ha : length addr ≤ 0xffff) (h1 : length k1 ≤ 0xffff) (g1 : length v1 ≤ 0xffff)
      (h2 : length k2 ≤ 0xffff) (g2 : length v2 ≤ 0xffff) (h3 : length k3 ≤ 0xffff)
      (g3 : length v3 ≤ 0xffff) where
    value1 : get_nth_op s 0 7 ≡ ok (item_op (push v1), v1, place1)
    value1 = read_first addr k1 v1 tail2 ha h1 g1

    value2 : get_nth_op s place1 3 ≡ ok (item_op (push v2), v2, place2)
    value2 =
        read_next s (part1 ++ item_bytes (push v1)) k2 v2 tail3 place1
          (sym (append_assoc part1 (item_bytes (push v1)) tail2))
          (omega (arith, length-append part1 (item_bytes (push v1)))) h2 g2

    value3 : get_nth_op s place2 3 ≡ ok (item_op (push v3), v3, place3)
    value3 =
        let pre = part1 ++ item_bytes (push v1) in
        read_next s (pre ++ (part2 ++ item_bytes (push v2))) k3 v3 rest place2
          (sym (append_assoc part1 (item_bytes (push v1)) tail2) ∙ behind pre part2 tail3 v2)
          (omega (
            arith,
            length-append part1 (item_bytes (push v1)),
            length-append pre (part2 ++ item_bytes (push v2)),
            length-append part2 (item_bytes (push v2)),
          ))
          h3 g3

    value4 :
        (k4 v4 end : List ℕ)
        → rest ≡ script_of (next_param k4) ++ (item_bytes (push v4) ++ end)
        → length k4 ≤ 0xffff
        → length v4 ≤ 0xffff
        → get_nth_op s place3 3
          ≡ ok (
            item_op (push v4),
            v4,
            place3 + length (script_of (next_param k4)) + length (item_bytes (push v4)),
          )
    value4 k4 v4 end e h4 g4 =
        let pre = part1 ++ item_bytes (push v1) in
        let pre2 = pre ++ (part2 ++ item_bytes (push v2)) in
        let pre3 = pre2 ++ (part3 ++ item_bytes (push v3)) in
        read_next s pre3 k4 v4 end place3
          (sym (append_assoc part1 (item_bytes (push v1)) tail2)
            ∙ behind pre part2 tail3 v2
            ∙ behind pre2 part3 rest v3
            ∙ ap (λ (t : Script). pre3 ++ t) e)
          (omega (
            arith,
            length-append part1 (item_bytes (push v1)),
            length-append pre (part2 ++ item_bytes (push v2)),
            length-append part2 (item_bytes (push v2)),
            length-append pre2 (part3 ++ item_bytes (push v3)),
            length-append part3 (item_bytes (push v3)),
          ))
          h4 g4

word-put_uint : (k n : ℕ) → n < 256 ^ k → word k (put_uint k n) ≡ ok n
unfolding word
word-put_uint k n h =
    let size = length-put_uint k n in
    let whole : take k (put_uint k n) ≡ put_uint k n =
      ap (take k) (sym (append-nil (put_uint k n))) ∙ take-append (put_uint k n) [] k (sym size) in
    rw (le→ltb (length (put_uint k n)) k (omega (arith, size)), whole) (ap ok (uint-put_uint k n h))

transfer_shape :
    (addr : List ℕ) (p : TransferParams)
    → transfer_token_script addr p
      ≡ s addr token_tx_hash_key p.token_id.hash token_tx_out_idx_key
          (put_uint 4 p.token_id.index)
          token_amount_key
          (put_uint 8 p.amount)
          (op_drop ∷ [])
unfolding transfer_token_script script_of item_bytes first_param next_param
transfer_shape addr p = simp append_assoc

-- The parameters that `TransferTokenScript` writes behind the locking script are what
-- `GetTransferParams` reads. The hash of the token has 32 bytes, the index is a uint32, the amount
-- a uint64, and the address hash has at most 0xffff bytes.
pub get_transfer_params-transfer_token_script :
    (addr : List ℕ) (p : TransferParams)
    → length addr ≤ 0xffff
    → length p.token_id.hash ≡ 32
    → p.token_id.index < 2 ^ 32
    → p.amount < 2 ^ 64
    → get_transfer_params (transfer_token_script addr p) ≡ ok p
unfolding get_transfer_params
get_transfer_params-transfer_token_script addr p ha h32 hi hp =
    let hash = p.token_id.hash in
    let idx = put_uint 4 p.token_id.index in
    let amt = put_uint 8 p.amount in
    let short : length hash ≤ 0xffff = omega (arith, h32) in
    let idx_short : length idx ≤ 0xffff = omega (arith, length-put_uint 4 p.token_id.index) in
    let amt_short : length amt ≤ 0xffff = omega (arith, length-put_uint 8 p.amount) in
    let whole : take 32 hash ≡ hash =
      ap (take 32) (sym (append-nil hash)) ∙ take-append hash [] 32 (sym h32) in
    let end = op_drop ∷ [] in
    let r1 =
      value1 addr token_tx_hash_key hash token_tx_out_idx_key idx token_amount_key amt end ha
        (omega arith) short (omega arith) idx_short (omega arith) amt_short in
    let r2 =
      value2 addr token_tx_hash_key hash token_tx_out_idx_key idx token_amount_key amt end ha
        (omega arith) short (omega arith) idx_short (omega arith) amt_short in
    let r3 =
      value3 addr token_tx_hash_key hash token_tx_out_idx_key idx token_amount_key amt end ha
        (omega arith) short (omega arith) idx_short (omega arith) amt_short in
    rw
      (
        transfer_shape addr p,
        r1,
        le→ltb (length hash) 32 (omega (arith, h32)),
        r2,
        word-put_uint 4 p.token_id.index (omega arith),
        r3,
        word-put_uint 8 p.amount (omega arith),
        whole,
      )
      refl

-- The script behind the third value of an issue script.
issue_end : IssueParams → Script
issue_end p =
    script_of (next_param token_decimals_key)
    ++ (item_bytes (push (p.decimals ∷ [])) ++ (op_drop ∷ []))

issue_shape :
    (addr : List ℕ) (p : IssueParams)
    → issue_token_script addr p
      ≡ s addr token_name_key p.name token_symbol_key p.symbol token_amount_key
          (put_uint 8 p.total_supply)
          (issue_end p)
unfolding issue_token_script script_of item_bytes first_param next_param issue_end
issue_shape addr p = simp append_assoc

-- The parameters that `IssueTokenScript` writes behind the locking script are what
-- `GetIssueParams` reads. The supply is a uint64, and the name, the symbol and the address hash
-- have at most 0xffff bytes each.
pub get_issue_params-issue_token_script :
    (addr : List ℕ) (p : IssueParams)
    → length addr ≤ 0xffff
    → length p.name ≤ 0xffff
    → length p.symbol ≤ 0xffff
    → p.total_supply < 2 ^ 64
    → get_issue_params (issue_token_script addr p) ≡ ok p
unfolding get_issue_params
get_issue_params-issue_token_script addr p ha hn hs ht =
    let supply = put_uint 8 p.total_supply in
    let short : length supply ≤ 0xffff = omega (arith, length-put_uint 8 p.total_supply) in
    let one : List ℕ = p.decimals ∷ [] in
    let end = issue_end p in
    let r1 =
      value1 addr token_name_key p.name token_symbol_key p.symbol token_amount_key supply end ha
        (omega arith) hn (omega arith) hs (omega arith) short in
    let r2 =
      value2 addr token_name_key p.name token_symbol_key p.symbol token_amount_key supply end ha
        (omega arith) hn (omega arith) hs (omega arith) short in
    let r3 =
      value3 addr token_name_key p.name token_symbol_key p.symbol token_amount_key supply end ha
        (omega arith) hn (omega arith) hs (omega arith) short in
    let r4 =
      value4 addr token_name_key p.name token_symbol_key p.symbol token_amount_key supply end ha
        (omega arith) hn (omega arith) hs (omega arith) short token_decimals_key one (op_drop ∷ [])
        (unfold issue_end in refl) (omega arith) (omega arith) in
    rw (issue_shape addr p, r1, r2, r3, word-put_uint 8 p.total_supply (omega arith), r4)
      (unfold first_byte in refl)
