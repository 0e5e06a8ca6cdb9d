-- ===== src/Storage/Key.antt =====
-- storage/key/key.go: keys as paths. A key is its string, by its bytes; path.Clean is a parameter.
pub mod Order
pub mod Paths
mod Tests
use boxd.Prelude.{
  ℕ, ◌-◌, Bool, true, false, not, ◌&&◌, ◌||◌, Option, none, some, List, [], ◌∷◌, ◌++◌, length, take,
  get_or, ltb, bytes_equal, ◌==◌, if◌then◌else◌,
}
use boxd.Prelude.Result.{Result, ok, err, panic}
use boxd.Chain.Error.{ChainError}

abbrev pub Key : Type 0
Key = List ℕ

-- '/'
abbrev pub slash : ℕ
slash = 0x2f

-- A string that is no clean path makes the code panic.
unfoldable pub raw_key : List ℕ → Result ChainError Key
raw_key [] = ok (slash ∷ [])
raw_key (c ∷ s) =
    if not (c == slash)
      || (ltb 1 (length (c ∷ s)) && get_or (c ∷ s) (length (c ∷ s) - 1) 0 == slash)
    then panic
    else ok (c ∷ s)

-- The first piece of strings.Split(s, "/"), and the others.
unfoldable pub split : List ℕ → List ℕ × List (List ℕ)
split [] = ([], [])
split (c ∷ s) =
    let (first, others) = split s in
    if c == slash then ([], first ∷ others) else (c ∷ first, others)

unfoldable pub list : Key → List (List ℕ)
unfolding split
list k = (split k).1

-- `<` of two lists by their members, and of two strings by their bytes.
unfoldable pub lex_less {ℓ} : {A : Type ℓ} → (A → A → Bool) → List A → List A → Bool
lex_less lt [] [] = false
lex_less lt [] (y ∷ ys) = true
lex_less lt (x ∷ xs) [] = false
lex_less lt (x ∷ xs) (y ∷ ys) =
    let rest = lex_less lt xs ys in if lt x y then true else if lt y x then false else rest

unfoldable pub string_less : List ℕ → List ℕ → Bool
unfolding lex_less
string_less = lex_less ltb

unfoldable pub less : Key → Key → Bool
unfolding list lex_less string_less
less k k2 = lex_less string_less (list k) (list k2)

-- strings.Join(l, "/")
unfoldable pub join : List (List ℕ) → List ℕ
join [] = []
join (s ∷ []) = s
join (s ∷ t ∷ l) = s ++ (slash ∷ join (t ∷ l))

last_or_nil : List (List ℕ) → List ℕ
last_or_nil [] = []
last_or_nil (s ∷ []) = s
last_or_nil (s ∷ t ∷ l) = last_or_nil (t ∷ l)

-- A key without a slash has no name, and the code panics.
unfoldable pub base_name : Key → Result ChainError (List ℕ)
unfolding list last_or_nil
base_name k = elim (list k) [ [] ↦ panic | s ∷ l ↦ ok (last_or_nil (s ∷ l)) ]

unfoldable pub child : Key → Key → Result ChainError Key
unfolding raw_key
child k k2 =
    if bytes_equal k (slash ∷ [])
    then ok k2
    else if bytes_equal k2 (slash ∷ [])
    then ok k
    else raw_key (k ++ k2)

-- strings.HasPrefix
unfoldable pub has_prefix_string : List ℕ → List ℕ → Bool
has_prefix_string s prefix = bytes_equal (take (length prefix) s) prefix

unfoldable pub is_ancestor_of : Key → Key → Bool
unfolding has_prefix_string
is_ancestor_of k other = if bytes_equal other k then false else has_prefix_string other k

unfoldable pub is_descendant_of : Key → Key → Bool
unfolding has_prefix_string
is_descendant_of k other = if bytes_equal other k then false else has_prefix_string k other

unfoldable pub is_top_level : Key → Bool
unfolding list
is_top_level k = length (list k) == 1

module _ (path_clean : List ℕ → List ℕ) where
  unfoldable pub clean : List ℕ → Key
  clean [] = slash ∷ []
  clean (c ∷ s) = if c == slash then path_clean (c ∷ s) else path_clean (slash ∷ c ∷ s)

  unfoldable pub new_key : List ℕ → Key
  unfolding clean
  new_key s = clean s

  unfoldable pub child_string : Key → List ℕ → Key
  unfolding new_key
  child_string k [] = k
  child_string k (c ∷ s) = new_key (k ++ (if not (c == slash) then slash ∷ c ∷ s else c ∷ s))

  -- A key without a slash has no names, and the code panics.
  unfoldable pub parent_key : Key → Result ChainError Key
  unfolding list join new_key
  parent_key k = elim (list k) [
    | [] ↦ panic
    | s ∷ [] ↦ ok (slash ∷ [])
    | s ∷ t ∷ l ↦ ok (new_key (join (take (length (s ∷ t ∷ l) - 1) (s ∷ t ∷ l))))
  ]
