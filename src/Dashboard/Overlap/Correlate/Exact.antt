-- ===== src/Dashboard/Overlap/Correlate/Exact.antt =====
-- Which alerts correlateAlerts of dashboard/dashboard.go relates.
use mini_edr.Prelude.{
  ℕ, zero, suc, ◌+◌, ◌≤◌, ℤ, Text, text_eq, List, [], ◌∷◌, some, GoMap, lookup, Among, Among-Any,
  Any-elim, Any-or, Any-cong, Any-both, Any, Pairs, ◌≡◌, ◌≢◌, ◌↔◌, ◌⊎◌, arith, refl, subst,
  get_elem?,
}
use mini_edr.Dashboard.Overlap.{AlertEntry}
use mini_edr.Dashboard.Overlap.Window.{alerts_overlap_comm}
use mini_edr.Dashboard.Overlap.Correlate.{Indexed, indexed, related_of, relate_all}
use mini_edr.Dashboard.Overlap.Correlate.Loops.{
  IsSorted, IsLinked, Relates, HasPair, relate_all-Among,
}

-- The indices are all different.
abbrev IsIndexing : List Indexed → Type 0
IsIndexing xs = Pairs (λ x y. x.0 ≢ y.0) xs

module _ (intervals : GoMap Text ℤ) (default_interval : ℤ) where
  -- Another alert that overlaps, and its identifier.
  abbrev pub IsPartner : Indexed → Text → Indexed → Type 0
  IsPartner x v y = (x.0 ≢ y.0) × IsLinked intervals default_interval x.1 y.1 × (v ≡ y.1.id)

  -- The alert at the index `k` has a partner of this identifier.
  abbrev pub HasPartner : ℕ → Text → List Indexed → List Indexed → Type 0
  HasPartner k v all xs = Any (λ x. (k ≡ x.0) × Any (IsPartner x v) all) xs

  HasPair-HasPartner :
      (k : ℕ) (v : Text) (xs : List Indexed)
      → IsIndexing xs
      → HasPair intervals default_interval k v xs ↔ HasPartner k v xs xs
  HasPair-HasPartner k v [] distinct = ground arith
  HasPair-HasPartner k v (x ∷ later) distinct =
      let R : Indexed → Type 0 = λ y. x.0 ≢ y.0 in
      let Here : Indexed → Type 0 = λ y. (k ≡ x.0) × IsPartner x v y in
      let There : Indexed → Type 0 = λ y. (k ≡ y.0) × IsPartner y v x in
      let Rest : Indexed → Type 0 = λ y. (k ≡ y.0) × Any (IsPartner y v) later in
      let split : Any (Relates intervals default_interval x k v) later
          ↔ Any (λ y. Here y ⊎ There y) later =
        Any-cong R (Relates intervals default_interval x k v) (λ y. Here y ⊎ There y) later
          distinct.0
          (λ y apart.
            ground (arith, apart, alerts_overlap_comm x.1 y.1 intervals default_interval)) in
      let others : Any (λ y. There y ⊎ Rest y) later
          ↔ Any (λ y. (k ≡ y.0) × Any (IsPartner y v) (x ∷ later)) later =
        Any-cong R (λ y. There y ⊎ Rest y) (λ y. (k ≡ y.0) × Any (IsPartner y v) (x ∷ later)) later
          distinct.0 (λ y apart. ground arith) in
      ground (
        arith,
        split,
        others,
        Any-or Here There later,
        Any-or There Rest later,
        Any-both (k ≡ x.0) (IsPartner x v) later,
        HasPair-HasPartner k v later distinct.1,
      )

indexed-le :
    (i k : ℕ) (f : AlertEntry) (entries : List AlertEntry)
    → Among (k, f) (indexed i entries)
    → i ≤ k
unfolding indexed
indexed-le i k f [] h = ground (arith, h)
indexed-le i k f (e ∷ entries) h = ground (arith, h, indexed-le (suc i) k f entries)

indexed-Among :
    (i j k : ℕ) (f : AlertEntry) (entries : List AlertEntry)
    → k ≡ i + j
    → Among (k, f) (indexed i entries) ↔ (get_elem? entries j ≡ some f)
unfolding indexed
indexed-Among i j k f [] h = ground arith
indexed-Among i zero k f (e ∷ entries) h = ground (arith, h, indexed-le (suc i) k f entries)
indexed-Among i (suc j) k f (e ∷ entries) h =
    ground (arith, h, indexed-Among (suc i) j k f entries (omega (arith, h)))

-- What sort.Slice promises: the indices in the order of their times, none left out and none twice.
pub record IsSorting (sort_by_time : List Indexed → List Indexed) (xs : List Indexed) : Type 0 where
  pub sorted : IsSorted (sort_by_time xs)
  pub distinct : IsIndexing (sort_by_time xs)
  pub same : (x : Indexed) → Among x (sort_by_time xs) ↔ Among x xs

-- Another alert overlaps with the one at the index `k`, and has this identifier; both identifiers are
-- not empty.
abbrev pub HasRelated : GoMap Text ℤ → ℤ → List AlertEntry → ℕ → AlertEntry → Text → Type 0
HasRelated intervals default_interval entries k e v =
    (j : ℕ) × (f : AlertEntry) × (get_elem? entries j ≡ some f)
    × (k ≢ j)
    × IsLinked intervals default_interval e f
    × (v ≡ f.id)

module _ (intervals : GoMap Text ℤ) (default_interval : ℤ)
    (sort_by_time : List Indexed → List Indexed) (entries : List AlertEntry)
    (sorting : IsSorting sort_by_time (indexed 0 entries)) where
  HasPartner-HasRelated :
      (k : ℕ) (e : AlertEntry) (v : Text)
      → get_elem? entries k ≡ some e
      → let xs = sort_by_time (indexed 0 entries) in
        HasPartner intervals default_interval k v xs xs
        → HasRelated intervals default_interval entries k e v
  HasPartner-HasRelated k e v here h =
      let xs = sort_by_time (indexed 0 entries) in
      let ((i, e'), at, (same, found)) =
        Any-elim (λ x. (k ≡ x.0) × Any (IsPartner intervals default_interval x v) xs) xs h in
      let ((j, f), at', (apart, linked, named)) =
        Any-elim (IsPartner intervals default_interval (i, e') v) xs found in
      let mine = (indexed-Among 0 i i e' entries (omega arith)).0 ((sorting.same (i, e')).0 at) in
      let its = (indexed-Among 0 j j f entries (omega arith)).0 ((sorting.same (j, f)).0 at') in
      let e_same : e' ≡ e = ground (arith, mine, same, here) in
      (
        j,
        f,
        its,
        ground (arith, apart, same),
        subst (λ a. IsLinked intervals default_interval a f) e_same linked,
        named,
      )

  HasRelated-HasPartner :
      (k : ℕ) (e : AlertEntry) (v : Text)
      → get_elem? entries k ≡ some e
      → HasRelated intervals default_interval entries k e v
      → let xs = sort_by_time (indexed 0 entries) in HasPartner intervals default_interval k v xs xs
  HasRelated-HasPartner k e v here (j, f, there, apart, linked, named) =
      let xs = sort_by_time (indexed 0 entries) in
      let mine = (sorting.same (k, e)).1 ((indexed-Among 0 k k e entries (omega arith)).1 here) in
      let its = (sorting.same (j, f)).1 ((indexed-Among 0 j j f entries (omega arith)).1 there) in
      Among-Any (λ x. (k ≡ x.0) × Any (IsPartner intervals default_interval x v) xs) xs (k, e)
        (
          refl,
          Among-Any (IsPartner intervals default_interval (k, e) v) xs (j, f) (apart, linked, named)
              its,
        )
        mine

  -- related[k] after the loops
  pub related-HasRelated :
      (k : ℕ) (e : AlertEntry) (v : Text)
      → get_elem? entries k ≡ some e
      → Among v (
          related_of k
            (relate_all intervals default_interval (sort_by_time (indexed 0 entries)) []))
        ↔ HasRelated intervals default_interval entries k e v
  unfolding related_of lookup
  related-HasRelated k e v here =
      let xs = sort_by_time (indexed 0 entries) in
      ground (
        arith,
        relate_all-Among intervals default_interval xs k v [] sorting.sorted,
        HasPair-HasPartner intervals default_interval k v xs sorting.distinct,
        HasPartner-HasRelated k e v here,
        HasRelated-HasPartner k e v here,
      )
