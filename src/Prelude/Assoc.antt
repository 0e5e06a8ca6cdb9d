-- ===== src/Prelude/Assoc.antt =====
-- Maps as association lists, by a Boolean equality of keys.
use mathlib.Core.Path.{◌≡◌, refl, ap, ◌∙◌}
use mathlib.Core.Logic.{inl, inr}
use mathlib.Core.Bool.{Bool, true, false}
use mathlib.Core.List.{List, [], ◌∷◌}
use mathlib.Core.Option.{Option, none, some}
use boxd.Prelude.Tests.{if◌then◌else◌, Bool-cases}

-- A Boolean equality that decides the equality of a type.
pub record KeyEq {ℓ} (K : Type ℓ) : Type ℓ where
  pub same : K → K → Bool
  pub same_refl : (a : K) → same a a ≡ true
  pub same→eq : (a b : K) → same a b ≡ true → a ≡ b

module _ {ℓ} {K : Type ℓ} (key : KeyEq K) where
  open key use {same, same→eq}

  same-trans_false : (i k j : K) → same i k ≡ true → same k j ≡ false → same i j ≡ false
  same-trans_false i k j e n = ap (λ t. same t j) (same→eq i k e) ∙ n

  same-trans_true : (i k j : K) → same i k ≡ true → same k j ≡ true → same i j ≡ true
  same-trans_true i k j e n = ap (λ t. same t j) (same→eq i k e) ∙ n

module _ {ℓ κ} {K : Type ℓ} {V : Type κ} (key : KeyEq K) where
  open key use {same, same_refl, same→eq}

  unfoldable pub find : List (K × V) → K → Option V
  find [] k = none
  find ((j, v) ∷ m) k = if same j k then some v else find m k

  -- m[k] = v
  unfoldable pub store : K → V → List (K × V) → List (K × V)
  store k v [] = (k, v) ∷ []
  store k v ((j, w) ∷ m) = if same j k then (j, v) ∷ m else (j, w) ∷ store k v m

  pub find-store_same :
      (k j : K) (v : V) (m : List (K × V)) → same k j ≡ true → find (store k v m) j ≡ some v
  unfolding find store
  find-store_same k j v [] e = rw e refl
  find-store_same k j v ((i, w) ∷ m) e = elim (Bool-cases (same i k)) [
    | inl h ↦ rw h (rw (same-trans_true key i k j h e) refl)
    | inr h ↦ elim (Bool-cases (same i j)) [
      | inl hit ↦
          let back : same i k ≡ true = ap (λ t. same i t) (same→eq k j e) ∙ hit in
          absurd (cc (h, back))
      | inr miss ↦ rw h (rw miss (find-store_same k j v m e))
    ]
  ]

  pub find-store_other :
      (k j : K) (v : V) (m : List (K × V)) → same k j ≡ false → find (store k v m) j ≡ find m j
  unfolding find store
  find-store_other k j v [] e = rw e refl
  find-store_other k j v ((i, w) ∷ m) e = elim (Bool-cases (same i k)) [
    | inl h ↦ rw h (rw (same-trans_false key i k j h e) refl)
    | inr h ↦ elim (Bool-cases (same i j)) [
      | inl hit ↦ rw h (rw hit refl)
      | inr miss ↦ rw h (rw miss (find-store_other k j v m e))
    ]
  ]
