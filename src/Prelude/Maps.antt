-- ===== src/Prelude/Maps.antt =====
-- Go's built-in maps, as association lists in the order of insertion. Go leaves the order of a
-- `range` over a map open: the list is one such order.
use mathlib.Core.Path.{◌≡◌, refl}
use mathlib.Core.Logic.{◌↔◌}
use mini_edr.Prelude.Lists.{keep, Among, Among-keep}
use mathlib.Core.Bool.{not, Bool, true, false}
use mathlib.Core.List.{List, [], ◌∷◌, map}
use mathlib.Core.Option.{Option, none, some}
use native.Mathlib.Omega.{arith}
use mini_edr.Prelude.Tests.{if◌then◌else◌}
use mini_edr.Prelude.Equality.{GoEq, ◌==◌, eq_self}

abbrev pub GoMap {ℓ κ} : Type ℓ → Type κ → Type (ℓ ⊔ κ)
GoMap K V = List (K × V)

abbrev pub is_some {ℓ} : {A : Type ℓ} → Option A → Bool
is_some none = false
is_some (some a) = true

module _ {ℓ κ} {K : Type ℓ} {V : Type κ} where
  abbrev pub keys : GoMap K V → List K
  keys = map (λ e. e.0)

module _ {ℓ κ} {K : Type ℓ} ⦃e : GoEq K⦄ {V : Type κ} where
  -- v, ok := m[k]
  unfoldable pub lookup : K → GoMap K V → Option V
  lookup k [] = none
  lookup k (entry ∷ rest) = if entry.0 == k then some entry.1 else lookup k rest

  -- m[k] = v
  unfoldable pub insert : K → V → GoMap K V → GoMap K V
  insert k v [] = (k, v) ∷ []
  insert k v (entry ∷ rest) = if entry.0 == k then (k, v) ∷ rest else entry ∷ insert k v rest

  -- _, ok := m[k]
  abbrev pub has : K → GoMap K V → Bool
  has k m = is_some (lookup k m)

  pub lookup-insert :
      (k j : K) (v : V) (m : GoMap K V)
      → lookup j (insert k v m) ≡ (if k == j then some v else lookup j m)
  unfolding lookup insert
  lookup-insert k j v [] = refl
  lookup-insert k j v (entry ∷ rest) =
      ground (
        arith,
        lookup-insert k j v rest,
        e.same_iff entry.0 j,
        e.same_iff entry.0 k,
        e.same_iff k j,
      )

  pub lookup-insert_self : (k : K) (v : V) (m : GoMap K V) → lookup k (insert k v m) ≡ some v
  lookup-insert_self k v m = ground (arith, lookup-insert k k v m, eq_self k)

module _ {K V : Type 0} ⦃e : GoEq K⦄ where
  -- No key stands in two entries.
  abbrev pub Keyed : GoMap K V → Type 0
  Keyed [] = Unit
  Keyed (entry ∷ rest) = (has entry.0 rest ≡ false) × Keyed rest

  pub insert-Keyed : (k : K) (v : V) (m : GoMap K V) → Keyed m → Keyed (insert k v m)
  unfolding insert lookup
  insert-Keyed k v [] h = ground arith
  insert-Keyed k v (entry ∷ rest) h = ground (
    arith,
    insert-Keyed k v rest h.1,
    lookup-insert k entry.0 v rest,
    e.same_iff entry.0 k,
    e.same_iff k entry.0,
  )

  pub Among-keys : (k : K) (m : GoMap K V) → Among k (keys m) ↔ (has k m ≡ true)
  unfolding lookup
  Among-keys k [] = ground arith
  Among-keys k (entry ∷ rest) = ground (arith, Among-keys k rest, e.same_iff entry.0 k)

module _ {K V W : Type 0} ⦃e : GoEq K⦄ where
  -- for k := range a { if _, ok := b[k]; !ok { out = append(out, k) } }
  unfoldable pub keys_missing : GoMap K V → GoMap K W → List K
  keys_missing a b = keep (λ k. not (has k b)) (keys a)

  pub keys_missing_iff :
      (k : K) (a : GoMap K V) (b : GoMap K W)
      → Among k (keys_missing a b) ↔ ((has k a ≡ true) × (has k b ≡ false))
  unfolding keys_missing
  keys_missing_iff k a b =
      ground (arith, Among-keep k (λ j. not (has j b)) (keys a), Among-keys k a)
