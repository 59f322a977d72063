-- ===== src/Dashboard/Overlap/Correlate/Result.antt =====
-- What correlateAlerts of dashboard/dashboard.go writes into the alerts.
use mini_edr.Prelude.{
  ℕ, zero, suc, ◌+◌, ℤ, Text, text_eq, text_beq_iff, bytes, true, List, [], ◌∷◌, ◌++◌, Option, none,
  some, Option-cases, inl, inr, GoMap, Among, Among-append, ◌≡◌, ◌≢◌, ◌↔◌, ◌⊎◌, arith, get_elem?,
  is_some,
}
use mini_edr.Dashboard.Overlap.{AlertEntry}
use mini_edr.Dashboard.Overlap.Correlate.{
  Indexed, indexed, related_of, relate_all, is_seen, merge_ids, existing_ids, encode_ids,
  merge_related_json, with_related, correlate_alerts,
}
use mini_edr.Dashboard.Overlap.Correlate.Exact.{IsSorting, HasRelated, related-HasRelated}

is_seen_iff : (v : Text) (us : List Text) → (is_seen v us ≡ true) ↔ Among v us
unfolding is_seen
is_seen_iff v [] = ground arith
is_seen_iff v (u ∷ us) = ground (arith, is_seen_iff v us, text_beq_iff u v)

merge_ids-Among :
    (v : Text) (vs merged : List Text)
    → Among v (merge_ids vs merged) ↔ (Among v merged ⊎ ((v ≢ []) × Among v vs))
unfolding merge_ids
merge_ids-Among v [] merged = ground arith
merge_ids-Among v (u ∷ vs) merged = ground (
  arith,
  merge_ids-Among v vs merged,
  merge_ids-Among v vs (merged ++ u ∷ []),
  is_seen_iff u merged,
  Among-append v merged (u ∷ []),
)

-- The identifiers that correlateAlerts writes into the alert at the index `k`.
abbrev pub written_ids :
    (Text → Option (List Text))
    → (List Indexed → List Indexed)
    → List AlertEntry
    → GoMap Text ℤ
    → ℤ
    → ℕ
    → AlertEntry
    → List Text
written_ids decode sort_by_time entries intervals default_interval k e =
    let related = relate_all intervals default_interval (sort_by_time (indexed 0 entries)) [] in
    merge_ids (related_of k related) (merge_ids (existing_ids decode e.related) [])

module _ (decode : Text → Option (List Text)) (encode : List Text → Option Text) where
  with_related-get :
      (i k n : ℕ) (entries : List AlertEntry) (related : GoMap ℕ (List Text)) (e : AlertEntry)
      → n ≡ i + k
      → get_elem? entries k ≡ some e
      → get_elem? (with_related decode encode i entries related) k
        ≡ some (record e {
          related = merge_related_json decode encode e.related (related_of n related);
        })
  unfolding with_related
  with_related-get i k n [] related e sum h = ground (arith, h)
  with_related-get i zero n (f ∷ entries) related e sum h =
      let same : n ≡ i = omega (arith, sum) in ground (arith, same, h)
  with_related-get i (suc k) n (f ∷ entries) related e sum h =
      with_related-get (suc i) k n entries related e (omega (arith, sum)) h

  -- What is written is read again.
  existing_ids-encode_ids :
      (ids : List Text)
      → ((text : Text) → encode ids ≡ some text → decode text ≡ some ids)
      → is_some (encode ids) ≡ true
      → decode [] ≡ none
      → decode (bytes "[]") ≡ some []
      → existing_ids decode (encode_ids encode ids) ≡ ids
  unfolding existing_ids encode_ids
  existing_ids-encode_ids [] reads writes nothing brackets = ground (arith, brackets)
  existing_ids-encode_ids (v ∷ ids) reads writes nothing brackets =
      elim (Option-cases (encode (v ∷ ids))) [
        | inl q ↦ ground (arith, q, writes)
        | inr (text, q) ↦ ground (arith, q, reads text q, nothing)
      ]

  -- correlateAlerts keeps each alert in its place, and lists in it exactly the identifiers that it has
  -- listed before and those of the other alerts that overlap with it, although the inner loop ends
  -- early: in the new text an identifier is listed if and only if it is not empty and was in the old
  -- one, or if it is that of another alert that overlaps and both have identifiers. sort.Slice must
  -- give the indices in the order of time, none left out and none twice, and the JSON of the list
  -- must be read back as the list.
  pub correlate_alerts-HasRelated :
      (sort_by_time : List Indexed → List Indexed) (entries : List AlertEntry)
      (intervals : GoMap Text ℤ) (default_interval : ℤ) (k : ℕ) (e : AlertEntry) (v : Text)
      → IsSorting sort_by_time (indexed 0 entries)
      → let ids = written_ids decode sort_by_time entries intervals default_interval k e in
        ((text : Text) → encode ids ≡ some text → decode text ≡ some ids)
        → is_some (encode ids) ≡ true
        → decode [] ≡ none
        → decode (bytes "[]") ≡ some []
        → get_elem? entries k ≡ some e
        → (o : AlertEntry) × (get_elem?
              (correlate_alerts decode encode sort_by_time entries intervals default_interval)
              k
            ≡ some (record e { related = o.related }))
          × (Among v (existing_ids decode o.related) ↔ (
              ((v ≢ []) × Among v (existing_ids decode e.related))
              ⊎ HasRelated intervals default_interval entries k e v))
  unfolding correlate_alerts merge_related_json
  correlate_alerts-HasRelated sort_by_time entries intervals default_interval k e v sorting reads
        writes nothing brackets here =
      let related = relate_all intervals default_interval (sort_by_time (indexed 0 entries)) [] in
      let ids = written_ids decode sort_by_time entries intervals default_interval k e in
      let o = record e { related = encode_ids encode ids } in
      let named : HasRelated intervals default_interval entries k e v → v ≢ [] =
        λ (j, f, there, apart, linked, same). ground (arith, linked.2, same) in
      (
        o,
        with_related-get 0 k k entries related e (omega arith) here,
        ground (
          arith,
          existing_ids-encode_ids ids reads writes nothing brackets,
          merge_ids-Among v (related_of k related) (merge_ids (existing_ids decode e.related) []),
          merge_ids-Among v (existing_ids decode e.related) [],
          related-HasRelated intervals default_interval sort_by_time entries sorting k e v here,
          named,
        ),
      )
