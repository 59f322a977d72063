-- ===== src/Prelude/Lists.antt =====
-- Lists measured and indexed by native numbers, under the library's names, and filters by a test.
use Prim.Native.Nat.{ℕ, zero, suc, ◌+◌, ◌≤◌}
use mathlib.Core.Path.{◌≡◌}
use mathlib.Core.Bool.{Bool, true, false}
use mathlib.Core.Logic.{inl, inr, ◌⊎◌, ◌↔◌}
use mathlib.Core.List.{append_assoc, List, [], ◌∷◌, ◌++◌}
use mathlib.Core.Option.{Option, none, some}
use native.Mathlib.Omega.{arith}
use mini_edr.Prelude.Tests.{Bool-cases, if◌then◌else◌}

module _ {ℓ} {A : Type ℓ} where
  abbrev pub length : List A → ℕ
  length [] = 0
  length (x ∷ xs) = suc (length xs)

  abbrev pub get_elem? : List A → ℕ → Option A
  get_elem? [] i = none
  get_elem? (x ∷ xs) zero = some x
  get_elem? (x ∷ xs) (suc i) = get_elem? xs i

  abbrev pub take : ℕ → List A → List A
  take zero xs = []
  take (suc n) [] = []
  take (suc n) (x ∷ xs) = x ∷ take n xs

  abbrev pub is_empty : List A → Bool
  is_empty [] = true
  is_empty (x ∷ xs) = false

  pub length-append : (xs ys : List A) → length (xs ++ ys) ≡ length xs + length ys
  length-append [] ys = omega arith
  length-append (x ∷ xs) ys = omega (arith, length-append xs ys)

  -- The elements that pass a test, in order.
  unfoldable pub keep : (A → Bool) → List A → List A
  keep p [] = []
  keep p (x ∷ xs) = let rest = keep p xs in if p x then x ∷ rest else rest

  pub length-keep : (p : A → Bool) (xs : List A) → length (keep p xs) ≤ length xs
  unfolding keep
  length-keep p [] = omega arith
  length-keep p (x ∷ xs) = ground (arith, length-keep p xs)

-- A predicate on every element, by recursion.
abbrev pub All {ℓ κ} : {A : Type ℓ} → (A → Type κ) → List A → Type κ
All P [] = Unit
All P (x ∷ xs) = P x × All P xs

module _ {ℓ κ} {A : Type ℓ} (P : A → Type κ) where
  pub All-append : (xs ys : List A) → All P xs → All P ys → All P (xs ++ ys)
  All-append [] ys hx hy = hy
  All-append (x ∷ xs) ys hx hy = (hx.0, All-append xs ys hx.1 hy)

  pub All-keep : (p : A → Bool) (xs : List A) → All P xs → All P (keep p xs)
  unfolding keep
  All-keep p [] h = tt
  All-keep p (x ∷ xs) h = ground (arith, All-keep p xs h.1)

module _ {ℓ κ} {A : Type ℓ} (P : A → Type κ) where
  -- What is kept passes the test.
  pub keep-All : (p : A → Bool) (xs : List A) → All P xs → All (λ x. P x × (p x ≡ true)) (keep p xs)
  unfolding keep
  keep-All p [] h = tt
  keep-All p (x ∷ xs) h = elim (Bool-cases (p x)) [
    | inl passes ↦ rw passes ((h.0, passes), keep-All p xs h.1)
    | inr fails ↦ rw fails (keep-All p xs h.1)
  ]

module _ {ℓ κ μ} {A : Type ℓ} {P : A → Type κ} {Q : A → Type μ} where
  pub All-imp : (xs : List A) → ((a : A) → P a → Q a) → All P xs → All Q xs
  All-imp [] f h = tt
  All-imp (x ∷ xs) f h = (f x h.0, All-imp xs f h.1)

-- Every pair of an element and a later one is related.
abbrev pub Pairs {ℓ κ} : {A : Type ℓ} → (A → A → Type κ) → List A → Type κ
Pairs R [] = Unit
Pairs R (x ∷ xs) = All (R x) xs × Pairs R xs

pub Pairs-append {ℓ κ} :
    {A : Type ℓ} (R : A → A → Type κ) (xs ys : List A)
    → Pairs R xs
    → All (λ x. All (R x) ys) xs
    → Pairs R ys
    → Pairs R (xs ++ ys)
Pairs-append R [] ys hx hxy hy = hy
Pairs-append R (x ∷ xs) ys hx hxy hy =
    (All-append (R x) xs ys hx.0 hxy.0, Pairs-append R xs ys hx.1 hxy.1 hy)

-- strings.Join(parts, sep)
unfoldable pub join {ℓ} : {A : Type ℓ} → List A → List (List A) → List A
join sep [] = []
join sep (part ∷ []) = part
join sep (part ∷ rest) = part ++ sep ++ join sep rest

-- A join inside the last part, and one inside the first.
pub join_assoc {ℓ} :
    {A : Type ℓ} (s t a b c : List A)
    → join s (a ∷ join t (b ∷ c ∷ []) ∷ []) ≡ join t (join s (a ∷ b ∷ []) ∷ c ∷ [])
unfolding join
join_assoc s t a b c = simp (append_assoc)

module _ {ℓ} {A : Type ℓ} where
  pub append_nil : (xs : List A) → xs ++ [] ≡ xs
  append_nil [] = cc
  append_nil (x ∷ xs) = cc (append_nil xs)

  pub take_all : (n : ℕ) (xs : List A) → length xs ≤ n → take n xs ≡ xs
  take_all zero [] h = cc
  take_all zero (x ∷ xs) h = ground (arith, h)
  take_all (suc n) [] h = cc
  take_all (suc n) (x ∷ xs) h = cc (take_all n xs (omega (arith, h)))

  -- What stands behind the first `n` elements is not taken.
  pub take-append : (n : ℕ) (xs ys : List A) → n ≤ length xs → take n (xs ++ ys) ≡ take n xs
  take-append zero xs ys h = cc
  take-append (suc n) [] ys h = ground (arith, h)
  take-append (suc n) (x ∷ xs) ys h = cc (take-append n xs ys (omega (arith, h)))

module _ {ℓ κ} {A : Type ℓ} {B : Type κ} where
  -- The results that there are, in order.
  unfoldable pub gather : (A → Option B) → List A → List B
  gather f [] = []
  gather f (x ∷ xs) = elim (f x) [ none ↦ gather f xs | some b ↦ b ∷ gather f xs ]

-- Some element has the property, by recursion.
abbrev pub Any {ℓ} : {A : Type ℓ} → (A → Type 0) → List A → Type 0
Any P [] = ⊥
Any P (x ∷ xs) = P x ⊎ Any P xs

-- `x` is an element.
abbrev pub Among : {A : Type 0} → A → List A → Type 0
Among x xs = Any (λ y. y ≡ x) xs

module _ {A : Type 0} where
  pub Among-append : (x : A) (xs ys : List A) → Among x (xs ++ ys) ↔ (Among x xs ⊎ Among x ys)
  Among-append x [] ys = ground arith
  Among-append x (y ∷ xs) ys = ground (arith, Among-append x xs ys)

  pub Among-keep :
      (x : A) (p : A → Bool) (xs : List A) → Among x (keep p xs) ↔ (Among x xs × (p x ≡ true))
  unfolding keep
  Among-keep x p [] = (λ h. absurd h, λ h. absurd h.0)
  Among-keep x p (y ∷ xs) = ground (arith, Among-keep x p xs)
