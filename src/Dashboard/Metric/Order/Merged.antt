-- ===== src/Dashboard/Metric/Order/Merged.antt =====
-- The names that mergeMetrics of dashboard/dashboard.go lists.
use mini_edr.Prelude.{
  Text, text_beq, text_eq, text_beq_iff, Bool, false, not, ◌&&◌, ◌||◌, List, [], ◌∷◌, ◌++◌,
  is_empty, if◌then◌else◌, tally, tally-snoc, tally_one, ◌≡◌, refl, ◌∙◌, arith, ℕ, ltb,
}
use mini_edr.Dashboard.Metric.Order.{is_merged, add_metrics, merge_metrics, metric_less}

-- How often a name is listed.
abbrev pub times : Text → List Text → ℕ
times m names = tally (λ n. text_beq n m) names

is_merged-append :
    (m n : Text) (ns : List Text) → is_merged m (ns ++ n ∷ []) ≡ (is_merged m ns || text_beq n m)
unfolding is_merged
is_merged-append m n [] = ground arith
is_merged-append m n (k ∷ ns) = ground (arith, is_merged-append m n ns)

times_unmerged : (m : Text) (ns : List Text) → is_merged m ns ≡ false → times m ns ≡ 0
unfolding is_merged tally
times_unmerged m [] h = refl
times_unmerged m (n ∷ ns) h = ground (arith, times_unmerged m ns)

is_merged_pos : (m : Text) (ns : List Text) → is_merged m ns ≡ ltb 0 (times m ns)
unfolding is_merged tally
is_merged_pos m [] = refl
is_merged_pos m (n ∷ ns) = ground (arith, is_merged_pos m ns)

-- The tests of the loop, for a name and what is listed so far
times-add_metrics :
    (m : Text) (ms merged : List Text)
    → times m (add_metrics ms merged) ≡ (
        if is_merged m merged
        then times m merged
        else if not (is_empty m) && is_merged m ms
        then 1
        else 0)
unfolding add_metrics is_merged tally_one
times-add_metrics m [] merged = ground (arith, times_unmerged m merged)
times-add_metrics m (n ∷ ms) merged = ground (
  arith,
  times-add_metrics m ms merged,
  times-add_metrics m ms (merged ++ n ∷ []),
  is_merged-append m n merged,
  tally-snoc (λ k. text_beq k m) merged n,
  text_beq_iff n m,
  times_unmerged m merged,
)

-- mergeMetrics lists every name that is not empty and stands in one of its arguments, exactly once,
-- and nothing else. sort.Slice keeps the elements.
pub times-merge_metrics :
    (sort_names : (Text → Text → Bool) → List Text → List Text)
    → ((less : Text → Text → Bool) (p : Text → Bool) (names : List Text)
        → tally p (sort_names less names) ≡ tally p names)
    → (m : Text) (a b : List Text)
    → times m (merge_metrics sort_names a b)
      ≡ (if not (is_empty m) && (is_merged m a || is_merged m b) then 1 else 0)
unfolding merge_metrics is_merged
times-merge_metrics sort_names keeps m a b =
    keeps metric_less (λ n. text_beq n m) (add_metrics b (add_metrics a []))
    ∙ ground (
      arith,
      times-add_metrics m b (add_metrics a []),
      times-add_metrics m a [],
      is_merged_pos m (add_metrics a []),
    )
