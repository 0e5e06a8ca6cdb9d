-- ===== src/Script/Contract/RoundTrip.antt =====
-- The locking script of a contract reads back as its parameters.
use boxd.Prelude.{
  ℕ, ◌-◌, ◌/◌, ◌^◌, ◌≤◌, ◌<◌, ◌≡◌, refl, ap, ◌∙◌, true, Option, none, some, List, [], ◌∷◌, ◌++◌,
  append_assoc, length, length-append, lt→ltb, lt→leb, eq→==, ne→==, arith,
}
use mathlib.Core.List.{append-nil}
use boxd.Prelude.Result.{Result, ok, err}
use boxd.Script.Builder.{
  Script, operand_prefix, add_operand, zero_contract_address, make_contract_script_pubkey,
}
use boxd.Script.Bytes.{put_uint, uint, length-put_uint, uint-put_uint}
use boxd.Script.Contract.{
  VmTxParams, ContractType, contract_type, read_version, at_end, read_hash, read_numbers,
  parse_contract_params, parse_contract_gas,
}
use boxd.Script.Error.{Error, script_bound}
use boxd.Script.Opcode.{op_contract}
use boxd.Script.Reader.{get_nth_op, read_uint}
use boxd.Script.Reader.Cuts.{next_op-op, next_op-end, get_nth_op-short, cut_behind}

-- The hash that stands for the contract in the script.
abbrev pub to_hash : Option (List ℕ) → List ℕ
to_hash none = zero_contract_address
to_hash (some hash) = hash

-- The bytes of the script of a contract.
contract_bytes : (from to nonce gas version : List ℕ) → Script
contract_bytes from to nonce gas version =
    op_contract
    ∷ 20
    ∷ (from ++ (20 ∷ (to ++ (8 ∷ (nonce ++ (8 ∷ (gas ++ (4 ∷ (version ++ [])))))))))

module _ (from to nonce gas version : List ℕ) (hf : length from ≡ 20) (ht : length to ≡ 20)
    (hn : length nonce ≡ 8) (hg : length gas ≡ 8) (hv : length version ≡ 4) where
  abbrev s : Script
  s = contract_bytes from to nonce gas version

  abbrev pre1 : Script
  pre1 = (op_contract ∷ []) ++ (20 ∷ from)

  abbrev pre2 : Script
  pre2 = pre1 ++ (20 ∷ to)

  abbrev pre3 : Script
  pre3 = pre2 ++ (8 ∷ nonce)

  abbrev pre4 : Script
  pre4 = pre3 ++ (8 ∷ gas)

  abbrev pre5 : Script
  pre5 = pre4 ++ (4 ∷ version)

  abbrev rest4 : Script
  rest4 = 4 ∷ (version ++ [])

  abbrev rest3 : Script
  rest3 = 8 ∷ (gas ++ rest4)

  abbrev rest2 : Script
  rest2 = 8 ∷ (nonce ++ rest3)

  abbrev rest1 : Script
  rest1 = 20 ∷ (to ++ rest2)

  start1 : s ≡ pre1 ++ rest1
  unfolding contract_bytes
  start1 = refl

  start2 : s ≡ pre2 ++ rest2
  start2 = cut_behind s pre1 to rest2 20 start1

  start3 : s ≡ pre3 ++ rest3
  start3 = cut_behind s pre2 nonce rest3 8 start2

  start4 : s ≡ pre4 ++ rest4
  start4 = cut_behind s pre3 gas rest4 8 start3

  start5 : s ≡ pre5 ++ []
  start5 = cut_behind s pre4 version [] 4 start4

  at1 : 22 ≡ length pre1
  at1 = omega (arith, hf)

  at2 : 43 ≡ length pre2
  at2 = omega (arith, at1, ht, length-append pre1 (20 ∷ to))

  at3 : 52 ≡ length pre3
  at3 = omega (arith, at2, hn, length-append pre2 (8 ∷ nonce))

  at4 : 61 ≡ length pre4
  at4 = omega (arith, at3, hg, length-append pre3 (8 ∷ gas))

  at5 : length s ≤ 66
  at5 =
      let whole : length s ≡ length (pre5 ++ []) = ap length start5 in
      omega (arith, at4, hv, length-append pre4 (4 ∷ version), length-append pre5 [], whole)

  read0 : get_nth_op s 0 0 ≡ ok (op_contract, [], 1)
  unfolding get_nth_op contract_bytes
  read0 = next_op-op s [] (20 ∷ (from ++ rest1)) op_contract 0 refl refl (omega arith)

  read1 : get_nth_op s 1 0 ≡ ok (20, from, 22)
  unfolding contract_bytes
  read1 = get_nth_op-short s (op_contract ∷ []) from rest1 1 20 refl refl hf (omega arith)

  read2 : get_nth_op s 22 0 ≡ ok (20, to, 43)
  read2 = get_nth_op-short s pre1 to rest2 22 20 start1 at1 ht (omega arith)

  read3 : get_nth_op s 43 0 ≡ ok (8, nonce, 52)
  read3 = get_nth_op-short s pre2 nonce rest3 43 8 start2 at2 hn (omega arith)

  read4 : get_nth_op s 52 0 ≡ ok (8, gas, 61)
  read4 = get_nth_op-short s pre3 gas rest4 52 8 start3 at3 hg (omega arith)

  read5 : get_nth_op s 61 0 ≡ ok (4, version, 66)
  read5 = get_nth_op-short s pre4 version [] 61 4 start4 at4 hv (omega arith)

  read6 : get_nth_op s 66 0 ≡ err script_bound
  unfolding get_nth_op
  read6 = next_op-end s 66 at5

  hash1 : read_hash s 1 ≡ ok (from, 22)
  unfolding read_hash
  hash1 = rw (read_hash, read1, eq→== (length from) 20 hf) refl

  hash2 : read_hash s 22 ≡ ok (to, 43)
  unfolding read_hash
  hash2 = rw (read_hash, read2, eq→== (length to) 20 ht) refl

  number1 : read_uint 8 s 43 ≡ ok (uint nonce, 52)
  unfolding read_uint
  number1 = rw (read_uint, read3, eq→== (length nonce) 8 hn) refl

  number2 : read_uint 8 s 52 ≡ ok (uint gas, 61)
  unfolding read_uint
  number2 = rw (read_uint, read4, eq→== (length gas) 8 hg) refl

  version_read : read_version s 61 ≡ (uint version, 66)
  unfolding read_version
  version_read = rw (read_version, read5, eq→== (length version) 4 hv) refl

  ends : at_end s 66 ≡ true
  unfolding at_end
  ends = rw (at_end, read6) refl

  numbers :
      read_numbers s from to 43
      ≡ ok (
        record {
          gas_limit = uint gas;
          nonce = uint nonce;
          version = uint version;
          from = from;
          to = to;
        },
        contract_type to,
      )
  unfolding read_numbers
  numbers = rw (read_numbers, number1, number2, version_read, ends) refl

  parse_params :
      parse_contract_params s
      ≡ ok (
        record {
          gas_limit = uint gas;
          nonce = uint nonce;
          version = uint version;
          from = from;
          to = to;
        },
        contract_type to,
      )
  unfolding parse_contract_params
  parse_params = rw (parse_contract_params, read0, hash1, hash2, numbers) refl

  parse_gas : parse_contract_gas s ≡ ok (uint gas)
  unfolding parse_contract_gas
  parse_gas = rw (parse_contract_gas, read4, eq→== (length gas) 8 hg) refl

short_prefix : (m : List ℕ) (k : ℕ) → length m ≡ k → k < 76 → operand_prefix (length m) ≡ k ∷ []
unfolding operand_prefix
short_prefix m k size small = rw (lt→ltb (length m) 76 (omega arith)) (ap (λ (c : ℕ). c ∷ []) size)

made :
    (from to nonce gas version : List ℕ)
    → length from ≡ 20
    → length to ≡ 20
    → length nonce ≡ 8
    → length gas ≡ 8
    → length version ≡ 4
    → add_operand
        (add_operand (add_operand (add_operand (add_operand (op_contract ∷ []) from) to) nonce) gas)
        version
      ≡ contract_bytes from to nonce gas version
unfolding add_operand contract_bytes
made from to nonce gas version hf ht hn hg hv =
    rw
      (
        short_prefix from 20 hf (omega arith),
        short_prefix to 20 ht (omega arith),
        short_prefix nonce 8 hn (omega arith),
        short_prefix gas 8 hg (omega arith),
        short_prefix version 4 hv (omega arith),
      )
      (simp (append_assoc, append-nil))

make_ok :
    (from : List ℕ) (to : Option (List ℕ)) (gas_limit nonce version : ℕ)
    → 0 < gas_limit
    → gas_limit < (2 ^ 63 - 1) / 50
    → make_contract_script_pubkey (some from) to gas_limit nonce version
      ≡ ok (
          add_operand
            (add_operand
              (add_operand
                (add_operand (add_operand (op_contract ∷ []) from) (to_hash to))
                (put_uint 8 nonce))
              (put_uint 8 gas_limit))
            (put_uint 4 version))
unfolding make_contract_script_pubkey
make_ok from none gas_limit nonce version lo hi =
    rw (ne→== gas_limit 0 (λ p. omega arith), lt→leb gas_limit ((2 ^ 63 - 1) / 50) hi) refl
make_ok from (some hash) gas_limit nonce version lo hi =
    rw (ne→== gas_limit 0 (λ p. omega arith), lt→leb gas_limit ((2 ^ 63 - 1) / 50) hi) refl

same_params :
    (from to : List ℕ) (g n v gas_limit nonce version : ℕ)
    → g ≡ gas_limit
    → n ≡ nonce
    → v ≡ version
    → ◌≡◌ {A = Result Error (VmTxParams × ContractType)}
        (ok (
          record { gas_limit = g; nonce = n; version = v; from = from; to = to },
          contract_type to,
        ))
        (ok (
          record { gas_limit = gas_limit; nonce = nonce; version = version; from = from; to = to },
          contract_type to,
        ))
same_params from to g n v gas_limit nonce version eg en ev = cc (eg, en, ev)

-- For a sender, a receiver if there is one, a gas limit and a version in the ranges that
-- `MakeContractScriptPubkey` takes, it makes a script, and `ParseContractParams` reads back from
-- this script all that it was made of, with creation as the type exactly for the zero address,
-- which stands for a missing receiver; `ParseContractGas` reads the gas limit. Address hashes have
-- 20 bytes, the nonce is a uint64 and the version 32 bits.
pub parse_contract_params-make_contract_script_pubkey :
    (from : List ℕ) (to : Option (List ℕ)) (gas_limit nonce version : ℕ)
    → length from ≡ 20
    → length (to_hash to) ≡ 20
    → 0 < gas_limit
    → gas_limit < (2 ^ 63 - 1) / 50
    → nonce < 2 ^ 64
    → version < 2 ^ 32
    → (s : Script) × (make_contract_script_pubkey (some from) to gas_limit nonce version ≡ ok s)
      × (parse_contract_params s
          ≡ ok (
            record {
              gas_limit = gas_limit;
              nonce = nonce;
              version = version;
              from = from;
              to = to_hash to;
            },
            contract_type (to_hash to),
          ))
      × (parse_contract_gas s ≡ ok gas_limit)
parse_contract_params-make_contract_script_pubkey from to gas_limit nonce version hf ht lo hi hn
      hv =
    let n8 = length-put_uint 8 nonce in
    let g8 = length-put_uint 8 gas_limit in
    let v4 = length-put_uint 4 version in
    let n = put_uint 8 nonce in
    let g = put_uint 8 gas_limit in
    let v = put_uint 4 version in
    let back_n : uint n ≡ nonce = uint-put_uint 8 nonce (omega arith) in
    let back_g : uint g ≡ gas_limit = uint-put_uint 8 gas_limit (omega arith) in
    let back_v : uint v ≡ version = uint-put_uint 4 version (omega arith) in
    (
      contract_bytes from (to_hash to) n g v,
      make_ok from to gas_limit nonce version lo hi
          ∙ ap ok (made from (to_hash to) n g v hf ht n8 g8 v4),
      parse_params from (to_hash to) n g v hf ht n8 g8 v4
          ∙ same_params from (to_hash to) (uint g) (uint n) (uint v) gas_limit nonce version back_g
              back_n back_v,
      parse_gas from (to_hash to) n g v hf ht n8 g8 v4 ∙ ap ok back_g,
    )
