-- ===== src/Script/Address/Tests.antt =====
-- The theorem on addresses at a concrete hash.
use boxd.Prelude.{ℕ, ◌≡◌, refl, true, List, replicate}
use boxd.Prelude.Result.{ok}
use boxd.Script.Address.{pay_to_pubk, pubk_type, pub_key_hash, extract_address, is_standard}
use boxd.Script.Address.KeyHash.{extract_address-pay_to_pub_key_hash_script}
use boxd.Script.Builder.{pay_to_pub_key_hash_script}

abbrev some_hash : List ℕ
some_hash = replicate 20 6

extract_address-pay_to_pub_key_hash_script_example :
    (pubk_type (pay_to_pub_key_hash_script some_hash) ≡ pay_to_pubk)
    × (extract_address (pay_to_pub_key_hash_script some_hash) ≡ ok (pub_key_hash some_hash))
    × (is_standard (pay_to_pub_key_hash_script some_hash) ≡ true)
extract_address-pay_to_pub_key_hash_script_example =
    extract_address-pay_to_pub_key_hash_script some_hash refl
