-- ===== src/Storage/Key/Paths.antt =====
-- Which keys are ancestors.
use boxd.Prelude.{
  ℕ, ◌≤◌, ◌≡◌, refl, ap, ◌∙◌, inl, inr, true, false, List, ◌++◌, length, length-append, take,
  take-append, bytes_equal, bytes_equal→eq, bytes_equal_refl, arith, Bool-cases,
}
use boxd.Storage.Key.{Key, has_prefix_string, is_ancestor_of, is_descendant_of}

-- A key with something behind it is not the key.
longer : (k s : List ℕ) → 1 ≤ length s → bytes_equal (k ++ s) k ≡ false
longer k s h = elim (Bool-cases (bytes_equal (k ++ s) k)) [
  | inr e ↦ e
  | inl e ↦
      let same : length (k ++ s) ≡ length k = ap length (bytes_equal→eq (k ++ s) k e) in
      absurd (omega (arith, same, length-append k s))
]

-- A key is an ancestor of every key that begins with its string and is longer, also when no slash
-- is in between; and that key is then a descendant of it.
pub is_ancestor_of-append :
    (k s : Key)
    → 1 ≤ length s
    → (is_ancestor_of k (k ++ s) ≡ true) × (is_descendant_of (k ++ s) k ≡ true)
unfolding is_ancestor_of is_descendant_of has_prefix_string
is_ancestor_of-append k s h =
    let prefix : bytes_equal (take (length k) (k ++ s)) k ≡ true =
      ap (λ l. bytes_equal l k) (take-append k s (length k) refl) ∙ bytes_equal_refl k in
    let differ : bytes_equal k (k ++ s) ≡ false = longer_back k s h in
    (rw (longer k s h) prefix, rw differ prefix)
  where
    longer_back : (a b : List ℕ) → 1 ≤ length b → bytes_equal a (a ++ b) ≡ false
    longer_back a b q = elim (Bool-cases (bytes_equal a (a ++ b))) [
      | inr e ↦ e
      | inl e ↦
          let same : length a ≡ length (a ++ b) = ap length (bytes_equal→eq a (a ++ b) e) in
          absurd (omega (arith, same, length-append a b))
    ]
