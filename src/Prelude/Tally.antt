-- ===== src/Prelude/Tally.antt =====
-- How many elements of a list, or of an option, pass a test.
use Prim.Native.Nat.{ℕ, suc, ◌+◌}
use mathlib.Core.Path.{◌≡◌}
use mathlib.Core.Bool.{Bool}
use mathlib.Core.List.{List, [], ◌∷◌, ◌++◌}
use mathlib.Core.Option.{Option, none, some}
use native.Mathlib.Omega.{arith}
use mini_edr.Prelude.Tests.{if◌then◌else◌}

-- How many elements pass a test.
unfoldable pub tally {ℓ} : {A : Type ℓ} → (A → Bool) → List A → ℕ
tally p [] = 0
tally p (x ∷ xs) = let rest = tally p xs in if p x then suc rest else rest

unfoldable pub tally_one {ℓ} : {A : Type ℓ} → (A → Bool) → Option A → ℕ
tally_one p none = 0
tally_one p (some x) = if p x then 1 else 0

pub tally-append {ℓ} :
    {A : Type ℓ} (p : A → Bool) (xs ys : List A) → tally p (xs ++ ys) ≡ tally p xs + tally p ys
unfolding tally
tally-append p [] ys = omega arith
tally-append p (x ∷ xs) ys = ground (arith, tally-append p xs ys)

pub tally-snoc {ℓ} :
    {A : Type ℓ} (p : A → Bool) (xs : List A) (x : A)
    → tally p (xs ++ x ∷ []) ≡ tally p xs + tally_one p (some x)
unfolding tally tally_one
tally-snoc p xs x = ground (arith, tally-append p xs (x ∷ []))

pub tally-middle {ℓ} :
    {A : Type ℓ} (p : A → Bool) (xs ys : List A) (x : A)
    → tally p (xs ++ x ∷ ys) ≡ tally p (xs ++ ys) + tally_one p (some x)
unfolding tally tally_one
tally-middle p xs ys x = ground (arith, tally-append p xs (x ∷ ys), tally-append p xs ys)
