-- ===== src/Prelude/Fallible.antt =====
-- Go's pairs of a value and an error, where the value counts only if the error is nil.
use mathlib.Core.Path.{◌≡◌, refl}
use mathlib.Core.Logic.{◌⊎◌, inl, inr}
use mini_edr.Prelude.Strings.{Text}

-- A value, or the text of an error.
pub data Fallible {ℓ} (A : Type ℓ) : Type ℓ where
  value : A → Fallible A
  failure : Text → Fallible A

pub Fallible-cases {ℓ} :
    {A : Type ℓ} (r : Fallible A) → ((a : A) × (r ≡ value a)) ⊎ ((err : Text) × (r ≡ failure err))
Fallible-cases (value a) = inl (a, refl)
Fallible-cases (failure err) = inr (err, refl)
