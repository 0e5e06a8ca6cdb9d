-- ===== src/Storage/Key/Order.antt =====
-- Keys are in a strict order by the names on their paths.
use boxd.Prelude.{
  subst, ◌≡◌, refl, ap, ap₂, ◌∙◌, inl, inr, Bool, true, false, List, [], ◌∷◌, ltb, if◌then◌else◌,
  arith, Bool-cases,
}
use boxd.Storage.Key.{Key, list, lex_less, string_less, less}

-- A Boolean relation that is asymmetric, transitive, and undecided only between equals.
pub record IsStrict {ℓ} {A : Type ℓ} (lt : A → A → Bool) : Type ℓ where
  pub asym : (a b : A) → lt a b ≡ true → lt b a ≡ false
  pub total : (a b : A) → lt a b ≡ false → lt b a ≡ false → a ≡ b
  pub trans : (a b c : A) → lt a b ≡ true → lt b c ≡ true → lt a c ≡ true

ltb-IsStrict : IsStrict ltb
ltb-IsStrict = record {
  asym = λ a b h. ground arith;
  total = λ a b h q. ground arith;
  trans = λ a b c h q. ground arith;
}

module _ {ℓ} {A : Type ℓ} (lt : A → A → Bool) (strict : IsStrict lt) where
  -- How two heads stand to each other.
  data Heads (x y : A) : Type ℓ where
    below : lt x y ≡ true → lt y x ≡ false → Heads x y
    above : lt x y ≡ false → lt y x ≡ true → Heads x y
    equal : x ≡ y → lt x y ≡ false → lt y x ≡ false → Heads x y

  heads : (x y : A) → Heads x y
  heads x y = elim (Bool-cases (lt x y)) [
    | inl h ↦ below h (strict.asym x y h)
    | inr h ↦ elim (Bool-cases (lt y x)) [
      | inl q ↦ above h q
      | inr q ↦ equal (strict.total x y h q) h q
    ]
  ]

  lex-asym : (xs ys : List A) → lex_less lt xs ys ≡ true → lex_less lt ys xs ≡ false
  unfolding lex_less
  lex-asym [] [] h = refl
  lex-asym [] (y ∷ ys) h = refl
  lex-asym (x ∷ xs) [] h = absurd cc
  lex-asym (x ∷ xs) (y ∷ ys) h = elim (heads x y) [
    | below a b ↦ rw (a, b) refl
    | above a b ↦ absurd (refuted a b h)
    | equal e a b ↦ rw (a, b) (lex-asym xs ys (tails a b h))
  ]
    where
      refuted :
          lt x y ≡ false
          → lt y x ≡ true
          → (if lt x y then true else if lt y x then false else lex_less lt xs ys) ≡ true
          → ⊥
      refuted a b = rw (a, b) (λ q. cc)

      tails :
          lt x y ≡ false
          → lt y x ≡ false
          → (if lt x y then true else if lt y x then false else lex_less lt xs ys) ≡ true
          → lex_less lt xs ys ≡ true
      tails a b = rw (a, b) (λ q. q)

  lex-total : (xs ys : List A) → lex_less lt xs ys ≡ false → lex_less lt ys xs ≡ false → xs ≡ ys
  unfolding lex_less
  lex-total [] [] h q = refl
  lex-total [] (y ∷ ys) h q = absurd cc
  lex-total (x ∷ xs) [] h q = absurd cc
  lex-total (x ∷ xs) (y ∷ ys) h q = elim (heads x y) [
    | below a b ↦ absurd (refuted a h)
    | above a b ↦ absurd (refuted_back b q)
    | equal e a b ↦ ap₂ ◌∷◌ e (lex-total xs ys (tails a b h) (tails_back a b q))
  ]
    where
      refuted :
          lt x y ≡ true
          → (if lt x y then true else if lt y x then false else lex_less lt xs ys) ≡ false
          → ⊥
      refuted a = rw a (λ r. cc)

      refuted_back :
          lt y x ≡ true
          → (if lt y x then true else if lt x y then false else lex_less lt ys xs) ≡ false
          → ⊥
      refuted_back a = rw a (λ r. cc)

      tails :
          lt x y ≡ false
          → lt y x ≡ false
          → (if lt x y then true else if lt y x then false else lex_less lt xs ys) ≡ false
          → lex_less lt xs ys ≡ false
      tails a b = rw (a, b) (λ r. r)

      tails_back :
          lt x y ≡ false
          → lt y x ≡ false
          → (if lt y x then true else if lt x y then false else lex_less lt ys xs) ≡ false
          → lex_less lt ys xs ≡ false
      tails_back a b = rw (a, b) (λ r. r)

  -- What a list below another one is.
  data Less : List A → List A → Type ℓ where
    at_end : (y : A) (ys : List A) → Less [] (y ∷ ys)
    at_head : (x y : A) (xs ys : List A) → lt x y ≡ true → Less (x ∷ xs) (y ∷ ys)
    behind : (x : A) (xs ys : List A) → lt x x ≡ false → Less xs ys → Less (x ∷ xs) (x ∷ ys)

  Less-of : (xs ys : List A) → lex_less lt xs ys ≡ true → Less xs ys
  unfolding lex_less
  Less-of [] [] h = absurd cc
  Less-of [] (y ∷ ys) h = at_end y ys
  Less-of (x ∷ xs) [] h = absurd cc
  Less-of (x ∷ xs) (y ∷ ys) h = elim (heads x y) [
    | below a b ↦ at_head x y xs ys a
    | above a b ↦ absurd (refuted a b h)
    | equal e a b ↦
        subst (λ z. Less (x ∷ xs) (z ∷ ys)) e
          (behind x xs ys (ap (lt x) e ∙ a) (Less-of xs ys (tails a b h)))
  ]
    where
      refuted :
          lt x y ≡ false
          → lt y x ≡ true
          → (if lt x y then true else if lt y x then false else lex_less lt xs ys) ≡ true
          → ⊥
      refuted a b = rw (a, b) (λ q. cc)

      tails :
          lt x y ≡ false
          → lt y x ≡ false
          → (if lt x y then true else if lt y x then false else lex_less lt xs ys) ≡ true
          → lex_less lt xs ys ≡ true
      tails a b = rw (a, b) (λ q. q)

  lex-of_Less : (xs ys : List A) → Less xs ys → lex_less lt xs ys ≡ true
  unfolding lex_less
  lex-of_Less _ _ (at_end y ys) = refl
  lex-of_Less _ _ (at_head x y xs ys h) = rw h refl
  lex-of_Less _ _ (behind x xs ys h r) = rw h (lex-of_Less xs ys r)

  Less-trans : (xs ys zs : List A) → Less xs ys → Less ys zs → Less xs zs
  Less-trans _ _ _ (at_end y ys) (at_head _ z _ zs h) = at_end z zs
  Less-trans _ _ _ (at_end y ys) (behind _ _ zs h r) = at_end y zs
  Less-trans _ _ _ (at_head x y xs ys h) (at_head _ z _ zs q) =
      at_head x z xs zs (strict.trans x y z h q)
  Less-trans _ _ _ (at_head x y xs ys h) (behind _ _ zs q r) = at_head x y xs zs h
  Less-trans _ _ _ (behind x xs ys h r) (at_head _ z _ zs q) = at_head x z xs zs q
  Less-trans _ _ _ (behind x xs ys h r) (behind _ _ zs q s) =
      behind x xs zs h (Less-trans xs ys zs r s)

  lex-IsStrict : IsStrict (lex_less lt)
  lex-IsStrict = record {
    asym = lex-asym;
    total = lex-total;
    trans = λ a b c h q. lex-of_Less a c (Less-trans a b c (Less-of a b h) (Less-of b c q));
  }

string_less-IsStrict : IsStrict string_less
unfolding string_less
string_less-IsStrict = lex-IsStrict ltb ltb-IsStrict

-- Two keys are not each below the other, keys of which none is below the other have the same names
-- on their paths, and a key below one that is below a third is below that one.
pub less-IsStrict :
    (a b c : Key)
    → (less a b ≡ true → less b a ≡ false)
      × (less a b ≡ false → less b a ≡ false → list a ≡ list b)
      × (less a b ≡ true → less b c ≡ true → less a c ≡ true)
unfolding less
less-IsStrict a b c =
    let order : IsStrict (lex_less string_less) = lex-IsStrict string_less string_less-IsStrict in
    (
      order.asym (list a) (list b),
      order.total (list a) (list b),
      order.trans (list a) (list b) (list c),
    )
