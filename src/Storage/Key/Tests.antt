-- ===== src/Storage/Key/Tests.antt =====
-- The keys "/a", "/a/b", "/ab" and "/b".
use boxd.Prelude.{◌≡◌, true, false, [], ◌∷◌, ◌++◌, arith}
use boxd.Storage.Key.{Key, list, less, is_ancestor_of, is_descendant_of}
use boxd.Storage.Key.Order.{less-IsStrict}
use boxd.Storage.Key.Paths.{is_ancestor_of-append}

abbrev a_key : Key
a_key = 0x2f ∷ 0x61 ∷ []

abbrev ab_key : Key
ab_key = 0x2f ∷ 0x61 ∷ 0x2f ∷ 0x62 ∷ []

abbrev b_key : Key
b_key = 0x2f ∷ 0x62 ∷ []

less-IsStrict_example :
    (less a_key ab_key ≡ true → less ab_key a_key ≡ false)
    × (less a_key ab_key ≡ false → less ab_key a_key ≡ false → list a_key ≡ list ab_key)
    × (less a_key ab_key ≡ true → less ab_key b_key ≡ true → less a_key b_key ≡ true)
less-IsStrict_example = less-IsStrict a_key ab_key b_key

is_ancestor_of-append_example :
    (is_ancestor_of a_key (a_key ++ (0x62 ∷ [])) ≡ true)
    × (is_descendant_of (a_key ++ (0x62 ∷ [])) a_key ≡ true)
is_ancestor_of-append_example = is_ancestor_of-append a_key (0x62 ∷ []) (omega arith)
