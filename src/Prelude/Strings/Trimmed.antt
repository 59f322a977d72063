-- ===== src/Prelude/Strings/Trimmed.antt =====
-- Texts without space at their ends: what strings.TrimSpace gives, and leaves alone.
use Prim.Native.Nat.{ℕ, zero, suc, ◌+◌, ◌/◌, ◌%◌}
use mathlib.Core.Path.{◌≡◌, refl, sym, ap, subst, ◌∙◌}
use mathlib.Core.Logic.{inl, inr}
use mathlib.Core.Bool.{false}
use mathlib.Core.List.{[], ◌∷◌, ◌++◌, reverse, reverse-append, reverse-cons, reverse-reverse}
use native.Mathlib.Omega.{arith}
use mini_edr.Prelude.Tests.{Bool-cases, ltb}
use mini_edr.Prelude.Lists.{All, All-append}
use mini_edr.Prelude.Strings.{Text, is_space, trim_left, trim_space, decimal_fuel, decimal}

-- No space at the start
abbrev Starts : Text → Type 0
Starts [] = Unit {0}
Starts (c ∷ s) = is_space c ≡ false

abbrev pub IsTrimmed : Text → Type 0
IsTrimmed s = Starts s × Starts (reverse s)

trim_left-same : (s : Text) → Starts s → trim_left s ≡ s
unfolding trim_left
trim_left-same [] h = refl
trim_left-same (c ∷ s) h = rw h

trim_left-Starts : (s : Text) → Starts (trim_left s)
unfolding trim_left
trim_left-Starts [] = tt
trim_left-Starts (c ∷ s) = elim (Bool-cases (is_space c)) [
  | inl space ↦ rw space (trim_left-Starts s)
  | inr other ↦ rw other other
]

trim_left_suffix : (s : Text) → (p : Text) × (s ≡ p ++ trim_left s)
unfolding trim_left
trim_left_suffix [] = ([], refl)
trim_left_suffix (c ∷ s) = elim (Bool-cases (is_space c)) [
  | inl space ↦ let (p, e) = trim_left_suffix s in (c ∷ p, rw space (ap (◌∷◌ c) e))
  | inr other ↦ ([], rw other)
]

Starts-prefix : (s t : Text) → Starts (s ++ t) → Starts s
Starts-prefix [] t h = tt
Starts-prefix (c ∷ s) t h = h

-- What is cut off at the end leaves the start alone.
Starts-cut : (u : Text) → Starts u → Starts (reverse (trim_left (reverse u)))
Starts-cut u h =
    let v = trim_left (reverse u) in
    let (p, e) = trim_left_suffix (reverse u) in
    Starts-prefix (reverse v) (reverse p)
      (subst Starts (sym (reverse-reverse u) ∙ ap reverse e ∙ reverse-append p v) h)

pub trim_space-IsTrimmed : (s : Text) → IsTrimmed (trim_space s)
unfolding trim_space
trim_space-IsTrimmed s = (
  Starts-cut (trim_left s) (trim_left-Starts s),
  subst Starts (sym (reverse-reverse (trim_left (reverse (trim_left s)))))
      (trim_left-Starts (reverse (trim_left s))),
)

pub IsTrimmed-same : (s : Text) → IsTrimmed s → trim_space s ≡ s
unfolding trim_space
IsTrimmed-same s h =
    rw (trim_left-same s h.0) (ap reverse (trim_left-same (reverse s) h.1) ∙ reverse-reverse s)

pub trim_space_idem : (s : Text) → trim_space (trim_space s) ≡ trim_space s
trim_space_idem s = IsTrimmed-same (trim_space s) (trim_space-IsTrimmed s)

abbrev pub NoSpace : Text → Type 0
NoSpace s = All (λ c. is_space c ≡ false) s

NoSpace-Starts : (s : Text) → NoSpace s → Starts s
NoSpace-Starts [] h = tt
NoSpace-Starts (c ∷ s) h = h.0

NoSpace-reverse : (s : Text) → NoSpace s → NoSpace (reverse s)
NoSpace-reverse [] h = tt
NoSpace-reverse (c ∷ s) h =
    rw (reverse-cons c s) (All-append _ (reverse s) (c ∷ []) (NoSpace-reverse s h.1) (h.0, tt))

pub NoSpace-IsTrimmed : (s : Text) → NoSpace s → IsTrimmed s
NoSpace-IsTrimmed s h = (NoSpace-Starts s h, NoSpace-Starts (reverse s) (NoSpace-reverse s h))

decimal_fuel-NoSpace : (f n : ℕ) (acc : Text) → NoSpace acc → NoSpace (decimal_fuel f n acc)
unfolding decimal_fuel is_space
decimal_fuel-NoSpace zero n acc h = h
decimal_fuel-NoSpace (suc f) n acc h = elim (Bool-cases (ltb n 10)) [
  | inl last ↦ rw last (ground arith, h)
  | inr more ↦ rw more (decimal_fuel-NoSpace f (n / 10) ((n % 10 + 48) ∷ acc) (ground arith, h))
]

pub decimal-NoSpace : (n : ℕ) → NoSpace (decimal n)
unfolding decimal
decimal-NoSpace n = decimal_fuel-NoSpace (suc n) n [] tt
