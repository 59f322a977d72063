-- ===== src/Dashboard/Overlap/Correlate/Loops.antt =====
-- What the loops of correlateAlerts in dashboard/dashboard.go relate.
use mini_edr.Prelude.{
  ℕ, ◌≤◌, ℤ, Text, text_eq, true, nat_eq, List, [], ◌∷◌, ◌++◌, GoMap, lookup-insert, Among,
  Among-append, Any, All, Pairs, ◌≡◌, ◌≢◌, ◌↔◌, ◌⊎◌, inl, inr, arith, Bool-cases,
}
use mini_edr.Dashboard.Overlap.{AlertEntry, alerts_overlap}
use mini_edr.Dashboard.Overlap.Window.{alerts_overlap-IsNear}
use mini_edr.Dashboard.Overlap.Correlate.{
  Indexed, related_of, relate, relate_pair, is_past, relate_later, relate_all,
}

relate-Among :
    (i k : ℕ) (id v : Text) (related : GoMap ℕ (List Text))
    → Among v (related_of k (relate i id related))
      ↔ (Among v (related_of k related) ⊎ ((k ≡ i) × (v ≡ id)))
unfolding relate related_of
relate-Among i k id v related = ground (
  arith,
  lookup-insert i k (related_of i related ++ id ∷ []) related,
  Among-append v (related_of i related) (id ∷ []),
)

-- In the order of their times.
abbrev pub IsSorted : List Indexed → Type 0
IsSorted xs = Pairs (λ x y. x.1.at_time ≤ y.1.at_time) xs

module _ (intervals : GoMap Text ℤ) (default_interval : ℤ) where
  -- The loops relate the alerts of a pair if they overlap and both have an identifier.
  abbrev pub IsLinked : AlertEntry → AlertEntry → Type 0
  IsLinked e f = (alerts_overlap e f intervals default_interval ≡ true) × (e.id ≢ []) × (f.id ≢ [])

  -- The pair relates the identifier `v` to the index `k`.
  abbrev pub Relates : Indexed → ℕ → Text → Indexed → Type 0
  Relates x k v y = IsLinked x.1 y.1 × (((k ≡ x.0) × (v ≡ y.1.id)) ⊎ ((k ≡ y.0) × (v ≡ x.1.id)))

  relate_pair-Among :
      (x y : Indexed) (k : ℕ) (v : Text) (related : GoMap ℕ (List Text))
      → Among v (related_of k (relate_pair intervals default_interval x y related))
        ↔ (Among v (related_of k related) ⊎ Relates x k v y)
  unfolding relate_pair
  relate_pair-Among (i, e) (j, f) k v related =
      ground
        (arith, relate-Among j k e.id v (relate i f.id related), relate-Among i k f.id v related)

  -- Behind the end of the inner loop nothing overlaps.
  is_past-Relates :
      (x y : Indexed) (later : List Indexed) (k : ℕ) (v : Text)
      → is_past intervals default_interval x y ≡ true
      → All (λ z. y.1.at_time ≤ z.1.at_time) later
      → Any (Relates x k v) later
      → ⊥
  unfolding is_past
  is_past-Relates x y [] k v past sorted h = h
  is_past-Relates x y (z ∷ later) k v past sorted (inl h) =
      ground (arith, past, sorted.0, h, alerts_overlap-IsNear x.1 z.1 intervals default_interval)
  is_past-Relates x y (z ∷ later) k v past sorted (inr h) =
      is_past-Relates x y later k v past sorted.1 h

  relate_later-Among :
      (x : Indexed) (later : List Indexed) (k : ℕ) (v : Text) (related : GoMap ℕ (List Text))
      → IsSorted later
      → Among v (related_of k (relate_later intervals default_interval x later related))
        ↔ (Among v (related_of k related) ⊎ Any (Relates x k v) later)
  unfolding relate_later
  relate_later-Among x [] k v related sorted = ground arith
  relate_later-Among x (y ∷ later) k v related sorted =
      elim (Bool-cases (is_past intervals default_interval x y)) [
        | inl past ↦
            ground (arith, past, is_past-Relates x y (y ∷ later) k v past (omega arith, sorted.0))
        | inr near ↦ ground (
          arith,
          near,
          relate_later-Among x later k v (relate_pair intervals default_interval x y related)
              sorted.1,
          relate_pair-Among x y k v related,
        )
      ]

  -- Some pair, in the order of the list, relates the identifier to the index.
  abbrev pub HasPair : ℕ → Text → List Indexed → Type 0
  HasPair k v [] = ⊥
  HasPair k v (x ∷ later) = Any (Relates x k v) later ⊎ HasPair k v later

  pub relate_all-Among :
      (xs : List Indexed) (k : ℕ) (v : Text) (related : GoMap ℕ (List Text))
      → IsSorted xs
      → Among v (related_of k (relate_all intervals default_interval xs related))
        ↔ (Among v (related_of k related) ⊎ HasPair k v xs)
  unfolding relate_all
  relate_all-Among [] k v related sorted = ground arith
  relate_all-Among (x ∷ later) k v related sorted = ground (
    arith,
    relate_all-Among later k v (relate_later intervals default_interval x later related) sorted.1,
    relate_later-Among x later k v related sorted.1,
  )
