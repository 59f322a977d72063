-- ===== src/Dashboard/Overlap/Correlate.antt =====
-- correlateAlerts and mergeRelatedJSON of dashboard/dashboard.go. `sort_by_time` is sort.Slice on the
-- indices, which stand here beside the alerts that they lead to; `decode` and `encode` are
-- json.Unmarshal and json.Marshal of a list of strings, `none` on an error.
pub mod Loops
pub mod Exact
pub mod Result
use mini_edr.Prelude.{
  ℕ, suc, ◌+◌, ℤ, pos_part, ltb, Text, text_eq, text_beq, bytes, Bool, false, not, ◌&&◌, ◌||◌,
  nat_eq, List, [], ◌∷◌, ◌++◌, Option, none, some, GoMap, lookup, insert, is_empty, if◌then◌else◌,
}
use mini_edr.Dashboard.Overlap.{AlertEntry, alerts_overlap, max_interval}

abbrev pub Indexed : Type 0
Indexed = ℕ × AlertEntry

-- The entries with their indices.
unfoldable pub indexed : ℕ → List AlertEntry → List Indexed
indexed i [] = []
indexed i (e ∷ entries) = (i, e) ∷ indexed (suc i) entries

-- related[i]
unfoldable pub related_of : ℕ → GoMap ℕ (List Text) → List Text
related_of i related = elim (lookup i related) [ none ↦ [] | some ids ↦ ids ]

-- related[i] = append(related[i], id)
unfoldable pub relate : ℕ → Text → GoMap ℕ (List Text) → GoMap ℕ (List Text)
relate i id related = insert i (related_of i related ++ id ∷ []) related

module _ (intervals : GoMap Text ℤ) (default_interval : ℤ) where
  -- The body of the inner loop behind the test for its end.
  unfoldable pub relate_pair : Indexed → Indexed → GoMap ℕ (List Text) → GoMap ℕ (List Text)
  relate_pair (i, e) (j, f) related =
      if alerts_overlap e f intervals default_interval
        && (not (is_empty e.id) && not (is_empty f.id))
      then relate j e.id (relate i f.id related)
      else related

  -- entries[j].AtTime.After(atI.Add(maxInterval)), where the interval is positive
  unfoldable pub is_past : Indexed → Indexed → Bool
  is_past (i, e) (j, f) =
      ltb (e.at_time + pos_part (max_interval intervals default_interval)) f.at_time

  -- The inner loop, over the later indices.
  unfoldable pub relate_later : Indexed → List Indexed → GoMap ℕ (List Text) → GoMap ℕ (List Text)
  relate_later x [] related = related
  relate_later x (y ∷ later) related =
      let rest = relate_later x later (relate_pair x y related) in
      if is_past x y then related else rest

  -- The outer loop.
  unfoldable pub relate_all : List Indexed → GoMap ℕ (List Text) → GoMap ℕ (List Text)
  relate_all [] related = related
  relate_all (x ∷ later) related = relate_all later (relate_later x later related)

unfoldable pub is_seen : Text → List Text → Bool
is_seen v [] = false
is_seen v (u ∷ us) = text_beq u v || is_seen v us

-- A loop of mergeRelatedJSON; what is seen is what is merged.
unfoldable pub merge_ids : List Text → List Text → List Text
merge_ids [] merged = merged
merge_ids (v ∷ vs) merged =
    let skipped = merge_ids vs merged in
    let added = merge_ids vs (merged ++ v ∷ []) in
    if is_empty v || is_seen v merged then skipped else added

-- What the existing text lists.
unfoldable pub existing_ids : (Text → Option (List Text)) → Text → List Text
existing_ids decode existing =
    if is_empty existing then [] else (elim (decode existing) [ none ↦ [] | some list ↦ list ])

unfoldable pub encode_ids : (List Text → Option Text) → List Text → Text
encode_ids encode merged =
    let empty = bytes "[]" in
    if is_empty merged then empty else (elim (encode merged) [ none ↦ empty | some text ↦ text ])

module _ (decode : Text → Option (List Text)) (encode : List Text → Option Text) where
  -- mergeRelatedJSON
  unfoldable pub merge_related_json : Text → List Text → Text
  merge_related_json existing derived =
      encode_ids encode (merge_ids derived (merge_ids (existing_ids decode existing) []))

  -- The loop that makes the result.
  unfoldable pub with_related : ℕ → List AlertEntry → GoMap ℕ (List Text) → List AlertEntry
  with_related i [] related = []
  with_related i (e ∷ entries) related =
      record e { related = merge_related_json e.related (related_of i related) }
      ∷ with_related (suc i) entries related

  -- correlateAlerts; a nil map of intervals has no entries.
  unfoldable pub correlate_alerts :
      (List Indexed → List Indexed) → List AlertEntry → GoMap Text ℤ → ℤ → List AlertEntry
  correlate_alerts sort_by_time entries intervals default_interval =
      with_related 0 entries
        (relate_all intervals default_interval (sort_by_time (indexed 0 entries)) [])
