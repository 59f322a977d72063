-- ===== src/Capturer/Rates/Totals.antt =====
-- The total of a counter over a map, for the rates of capturer/net.go and capturer/disk.go.
use mini_edr.Prelude.Maps.{Keyed}
use mini_edr.Prelude.{
  ℕ, ◌+◌, Text, text_eq, [], ◌∷◌, none, some, GoMap, lookup, if◌then◌else◌, ◌==◌, ◌≡◌, ◌≢◌, refl,
  arith, Bool-cases, inl, inr,
}

module _ {C : Type 0} where
  -- delete(m, k), for a key that stands once.
  unfoldable pub remove : Text → GoMap Text C → GoMap Text C
  remove k [] = []
  remove k (entry ∷ rest) = if entry.0 == k then rest else entry ∷ remove k rest

  unfoldable pub total : (C → ℕ) → GoMap Text C → ℕ
  total f [] = 0
  total f (entry ∷ rest) = f entry.1 + total f rest

  pub total-remove :
      (f : C → ℕ) (k : Text) (c : C) (m : GoMap Text C)
      → lookup k m ≡ some c
      → total f m ≡ f c + total f (remove k m)
  unfolding total remove lookup
  total-remove f k c [] h = cc
  total-remove f k c (entry ∷ rest) h = ground (arith, total-remove f k c rest)

  pub lookup-remove : (k j : Text) (m : GoMap Text C) → k ≢ j → lookup j (remove k m) ≡ lookup j m
  unfolding remove lookup
  lookup-remove k j [] h = refl
  lookup-remove k j (entry ∷ rest) h =
      ground
        (arith, lookup-remove k j rest h, text_eq.same_iff entry.0 k, text_eq.same_iff entry.0 j)

  pub lookup-remove_self : (k : Text) (m : GoMap Text C) → Keyed m → lookup k (remove k m) ≡ none
  unfolding remove lookup
  lookup-remove_self k [] h = refl
  lookup-remove_self k (entry ∷ rest) h =
      ground (arith, lookup-remove_self k rest h.1, text_eq.same_iff entry.0 k)

  pub remove-Keyed : (k : Text) (m : GoMap Text C) → Keyed m → Keyed (remove k m)
  unfolding remove lookup
  remove-Keyed k [] h = tt
  remove-Keyed k (entry ∷ rest) h = elim (Bool-cases (entry.0 == k)) [
    | inl same ↦ rw same h.1
    | inr apart ↦ rw apart (
      rw (lookup-remove k entry.0 rest (λ e. ground (arith, text_eq.same_iff entry.0 k))) h.0,
      remove-Keyed k rest h.1,
    )
  ]
