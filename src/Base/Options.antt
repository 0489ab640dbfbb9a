-- ===== src/Base/Options.antt =====
-- Chains of optional results.
use mathlib.Core.Path.{◌≡◌, refl}
use mathlib.Core.Logic.{◌⊎◌, inl, inr}
use mathlib.Core.Bool.{Bool, true, false}
use mathlib.Core.Option.{Option, none, some}
use native.Mathlib.Omega.{arith}
use doormat.Base.Tests.{if◌then◌else◌}

infixl 5 ◌>>=◌
abbrev pub ◌>>=◌ {ℓ κ} : {A : Type ℓ} {B : Type κ} → Option A → (A → Option B) → Option B
◌>>=◌ none f = none
◌>>=◌ (some a) f = f a

pub some-inj {ℓ} : {A : Type ℓ} {a b : A} → some a ≡ some b → a ≡ b
some-inj e = cc

pub some-ne-none {ℓ} : {A : Type ℓ} {a : A} → some a ≡ none → ⊥
some-ne-none e = cc

-- What a chain with a result has gone through.
pub bind-some {ℓ κ} :
    {A : Type ℓ} {B : Type κ} (o : Option A) (f : A → Option B) {b : B}
    → (o >>= f) ≡ some b
    → (a : A) × (o ≡ some a) × (f a ≡ some b)
bind-some none f e = absurd (ground (arith, e))
bind-some (some a) f e = (a, refl, e)

pub if_cases {ℓ} :
    {A : Type ℓ} (b : Bool) (x y : Option A) {c : A}
    → (if b then x else y) ≡ some c
    → (x ≡ some c) ⊎ (y ≡ some c)
if_cases true x y e = inl e
if_cases false x y e = inr e
