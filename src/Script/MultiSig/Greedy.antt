-- ===== src/Script/MultiSig/Greedy.antt =====
-- The loop of the multisignature check tries each signature on the keys in order and never goes
-- back. It finds a match whenever there is one.
use boxd.Prelude.{
  ◌≤◌, ◌<◌, ◌≡◌, refl, sym, ◌∙◌, Bool, true, false, Bool-cases, inl, inr, List, [], ◌∷◌, length,
  arith,
}
use boxd.Script.Stack.{Operand}

module _ (verify : Operand → Operand → Bool) where
  -- Each signature has a key that it verifies with, in the order of the keys, and no key serves
  -- twice.
  pub data Matches : List Operand → List Operand → Type 0 where
    done : {ks : List Operand} → Matches [] ks
    use_key :
        {s k : Operand} {ss ks : List Operand}
        → verify s k ≡ true
        → Matches ss ks
        → Matches (s ∷ ss) (k ∷ ks)
    skip : {k : Operand} {ss ks : List Operand} → Matches ss ks → Matches ss (k ∷ ks)

  unfoldable pub greedy : List Operand → List Operand → Bool
  greedy [] ks = true
  greedy (s ∷ ss) [] = false
  greedy (s ∷ ss) (k ∷ ks) = elim (verify s k) [ true ↦ greedy ss ks | false ↦ greedy (s ∷ ss) ks ]

  -- A match stays one without its first signature.
  Matches-tail : {s : Operand} {ss ks : List Operand} → Matches (s ∷ ss) ks → Matches ss ks
  Matches-tail (use_key v m) = skip m
  Matches-tail (skip m) = skip (Matches-tail m)

  Matches-rest : {s k : Operand} {ss ks : List Operand} → Matches (s ∷ ss) (k ∷ ks) → Matches ss ks
  Matches-rest (use_key v m) = m
  Matches-rest (skip m) = Matches-tail m

  Matches-skipped :
      {s k : Operand} {ss ks : List Operand}
      → verify s k ≡ false
      → Matches (s ∷ ss) (k ∷ ks)
      → Matches (s ∷ ss) ks
  Matches-skipped e (use_key v m) = cc
  Matches-skipped e (skip m) = m

  pub greedy_yes :
      (s k : Operand) (ss ks : List Operand)
      → verify s k ≡ true
      → greedy (s ∷ ss) (k ∷ ks) ≡ greedy ss ks
  unfolding greedy
  greedy_yes s k ss ks e = rw (e, greedy)

  pub greedy_no :
      (s k : Operand) (ss ks : List Operand)
      → verify s k ≡ false
      → greedy (s ∷ ss) (k ∷ ks) ≡ greedy (s ∷ ss) ks
  unfolding greedy
  greedy_no s k ss ks e = rw (e, greedy)

  pub greedy_sound : (ss ks : List Operand) → greedy ss ks ≡ true → Matches ss ks
  greedy_sound [] ks h = done
  greedy_sound (s ∷ ss) [] h = unfold greedy in cc
  greedy_sound (s ∷ ss) (k ∷ ks) h = elim (Bool-cases (verify s k)) [
    | inl e ↦ use_key e (greedy_sound ss ks (sym (greedy_yes s k ss ks e) ∙ h))
    | inr e ↦ skip (greedy_sound (s ∷ ss) ks (sym (greedy_no s k ss ks e) ∙ h))
  ]

  Matches-length : {ss ks : List Operand} → Matches ss ks → length ss ≤ length ks
  Matches-length done = omega arith
  Matches-length (use_key v m) = omega (arith, Matches-length m)
  Matches-length (skip m) = omega (arith, Matches-length m)

  pub greedy_complete : (ss ks : List Operand) → Matches ss ks → greedy ss ks ≡ true
  greedy_complete [] ks m = unfold greedy in refl
  greedy_complete (s ∷ ss) [] m = absurd (omega (arith, Matches-length m))
  greedy_complete (s ∷ ss) (k ∷ ks) m = elim (Bool-cases (verify s k)) [
    | inl e ↦ greedy_yes s k ss ks e ∙ greedy_complete ss ks (Matches-rest m)
    | inr e ↦ greedy_no s k ss ks e ∙ greedy_complete (s ∷ ss) ks (Matches-skipped e m)
  ]

  pub greedy-few_keys : (ss ks : List Operand) → length ks < length ss → greedy ss ks ≡ false
  unfolding greedy
  greedy-few_keys [] ks h = absurd (omega arith)
  greedy-few_keys (s ∷ ss) [] h = refl
  greedy-few_keys (s ∷ ss) (k ∷ ks) h = elim (Bool-cases (verify s k)) [
    | inl e ↦ greedy_yes s k ss ks e ∙ greedy-few_keys ss ks (omega arith)
    | inr e ↦ greedy_no s k ss ks e ∙ greedy-few_keys (s ∷ ss) ks (omega arith)
  ]
