-- ===== src/Script/Standard.antt =====
-- script/script.go: recognising the shapes of scripts.
use boxd.Prelude.{
  ℕ, zero, suc, ◌+◌, ◌-◌, ◌/◌, ◌%◌, Bool, true, false, not, ◌&&◌, ◌||◌, none, some, [], length,
  get_or, ltb, leb, ◌==◌, if◌then◌else◌,
}
use boxd.Script.Builder.{Script}
use boxd.Script.Opcode.{
  op_0, op_return, op_dup, op_equal, op_equalverify, op_hash160, op_checksig,
  op_checklocktimeverify, op_contract,
}
use boxd.Script.Parser.{parse_next_op}

-- ripemd160.Size
abbrev pub hash_size : ℕ
hash_size = 20

abbrev pub p2pkh_script_len : ℕ
p2pkh_script_len = 25

abbrev pub p2sh_script_len : ℕ
p2sh_script_len = 23

abbrev pub max_split_addrs : ℕ
max_split_addrs = 32

abbrev pub max_op_return_size : ℕ
max_op_return_size = 512

unfoldable pub is_pay_to_pub_key_hash : Script → Bool
is_pay_to_pub_key_hash s =
    length s == p2pkh_script_len
    && (get_or s 0 0 == op_dup
        && (get_or s 1 0 == op_hash160
            && (get_or s 2 0 == hash_size
                && (get_or s 23 0 == op_equalverify && get_or s 24 0 == op_checksig))))

unfoldable pub is_pay_to_pub_key_hash_cltv_script : Script → Bool
is_pay_to_pub_key_hash_cltv_script s =
    let l = length s in
    leb 27 l
    && (get_or s (l - 1) 0 == op_checksig
        && (get_or s (l - 2) 0 == op_equalverify
            && (get_or s (l - 23) 0 == hash_size
                && (get_or s (l - 24) 0 == op_hash160
                    && (get_or s (l - 25) 0 == op_dup
                        && get_or s (l - 26) 0 == op_checklocktimeverify)))))

unfoldable pub is_pay_to_script_hash : Script → Bool
is_pay_to_script_hash s =
    length s == p2sh_script_len
    && (get_or s 0 0 == op_hash160 && (get_or s 1 0 == hash_size && get_or s 22 0 == op_equal))

-- for i := 23; i < len(ss); i += 26, with at most `fuel` rounds.
split_addr_loop : ℕ → Script → ℕ → Bool
split_addr_loop zero s i = true
split_addr_loop (suc fuel) s i =
    let rest = split_addr_loop fuel s (i + 26) in
    if ltb i (length s)
    then if not (get_or s i 0 == hash_size) || not (get_or s (i + 21) 0 == 4)
      then false
      else if (i + 26) / 26 == max_split_addrs
      then false
      else rest
    else true

-- The script has room for fewer rounds than it has bytes.
unfoldable pub is_split_addr_script : Script → Bool
unfolding split_addr_loop
is_split_addr_script s =
    if ltb (length s) 49
    then false
    else if not ((length s - 23) % 26 == 0)
        || (not (get_or s 0 0 == op_return) || not (get_or s 1 0 == op_0))
    then false
    else split_addr_loop (length s) s 23

unfoldable pub is_contract_sig : Script → Bool
is_contract_sig sig = length sig == 10 && (get_or sig 0 0 == op_contract && get_or sig 1 0 == 8)

unfoldable pub is_contract_pubkey : Script → Bool
is_contract_pubkey s =
    if not (length s == 66)
    then false
    else if not (get_or s 0 0 == op_contract)
        || (not (get_or s 1 0 == hash_size)
            || (not (get_or s 22 0 == hash_size)
                || (not (get_or s 43 0 == 8)
                    || (not (get_or s 52 0 == 8) || not (get_or s 61 0 == 4)))))
    then false
    else true

-- A read that stops, as with an error of the source, leaves no such script.
unfoldable pub is_op_return_script : Script → Bool
is_op_return_script s =
    if ltb (length s) 3
    then false
    else if not (get_or s 0 0 == op_return)
    then false
    else if get_or s 1 0 == op_0
    then false
    else let p = parse_next_op s 1 in
      elim p.failure [
        | some e ↦ false
        | none ↦
            if ltb max_op_return_size (length (elim p.operand [ none ↦ [] | some o ↦ o ]))
            then false
            else if not (length s == p.pc)
            then false
            else true
      ]
