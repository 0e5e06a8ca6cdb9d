-- ===== src/Prelude/Ends.antt =====
-- Results that are a value or an error: the function neither panics nor runs out of rounds.
use mathlib.Core.Path.{◌≡◌, refl}
use mathlib.Core.Logic.{◌⊎◌, inl, inr}
use mathlib.Core.Bool.{Bool, true, false}
use boxd.Prelude.Tests.{if◌then◌else◌}
use boxd.Prelude.Result.{Result, ok, err, panic, out_of_fuel, ◌>>=◌}

pub data Ends {ℓ} {E : Type 0} {A : Type ℓ} : Result E A → Type ℓ where
  returns : (a : A) → Ends (ok a)
  fails : (e : E) → Ends (err e)

module _ {ℓ} {E : Type 0} {A : Type ℓ} where
  pub Ends-if : (b : Bool) (x y : Result E A) → Ends x → Ends y → Ends (if b then x else y)
  Ends-if true x y hx hy = hx
  Ends-if false x y hx hy = hy

  pub Ends-cases : (r : Result E A) → Ends r → ((a : A) × (r ≡ ok a)) ⊎ ((e : E) × (r ≡ err e))
  Ends-cases _ (returns a) = inl (a, refl)
  Ends-cases _ (fails e) = inr (e, refl)

pub Ends-bind {ℓ κ} :
    {E : Type 0} {A : Type ℓ} {B : Type κ} (m : Result E A) (f : A → Result E B)
    → Ends m
    → ((a : A) → Ends (f a))
    → Ends (m >>= f)
Ends-bind _ f (returns a) k = k a
Ends-bind _ f (fails e) k = fails e

pub ruleset ends_rules = (returns, fails, Ends-if, Ends-bind)

-- A sequence that returns a value: its first part does, and the rest goes on from there.
pub ok-bind {ℓ κ} :
    {E : Type 0} {A : Type ℓ} {B : Type κ} (m : Result E A) (f : A → Result E B) (b : B)
    → (m >>= f) ≡ ok b
    → (a : A) × (m ≡ ok a) × (f a ≡ ok b)
ok-bind (ok a) f b e = (a, refl, e)
ok-bind (err x) f b e = absurd cc
ok-bind panic f b e = absurd cc
ok-bind out_of_fuel f b e = absurd cc

-- A test that refuses, and was passed.
pub ok-unless {ℓ} :
    {E : Type 0} {A : Type ℓ} (c : Bool) (x : E) (r : Result E A) (a : A)
    → (if c then err x else r) ≡ ok a
    → (c ≡ false) × (r ≡ ok a)
ok-unless true x r a e = absurd cc
ok-unless false x r a e = (refl, e)

pub ok-injective {ℓ} :
    {E : Type 0} {A : Type ℓ} (a b : A) → ◌≡◌ {A = Result E A} (ok a) (ok b) → a ≡ b
ok-injective a b e = cc
