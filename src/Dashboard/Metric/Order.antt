-- ===== src/Dashboard/Metric/Order.antt =====
-- metricLess, parseCoreMetric and mergeMetrics of dashboard/dashboard.go. `sort_names` is
-- sort.Slice with its comparison.
pub mod Merged
use mini_edr.Prelude.Strings.{has_prefix, text_ltb, skip, has_suffix, trim_suffix}
use mini_edr.Prelude.{
  ℕ, ◌+◌, ◌-◌, ◌*◌, ◌^◌, ltb, leb, ℤ, pos, ◌-ℤ◌, ltb_ℤ, Text, text_beq, bytes, Bool, false, not,
  ◌&&◌, ◌||◌, List, [], ◌∷◌, ◌++◌, Option, none, some, is_empty, if◌then◌else◌, ◌==◌, nat_eq,
}

-- strconv.Atoi of digits, with the value of those before; an error beyond 2^63
unfoldable pub digits_value : Text → ℕ → Option ℕ
digits_value [] n = some n
digits_value (b ∷ text) n =
    let rest = digits_value text (10 * n + (b - 48)) in if leb 48 b && leb b 57 then rest else none

unfoldable pub bounded : ℕ → Option ℕ → Option ℕ
bounded limit none = none
bounded limit (some n) = if ltb n limit then some n else none

abbrev pub negated : Option ℕ → Option ℤ
negated none = none
negated (some n) = some (pos 0 -ℤ pos n)

abbrev pub not_negated : Option ℕ → Option ℤ
not_negated none = none
not_negated (some n) = some (pos n)

abbrev pub some_digits : Text → Option ℕ
some_digits text = if is_empty text then none else digits_value text 0

-- strconv.Atoi
unfoldable pub atoi : Text → Option ℤ
atoi [] = none
atoi (b ∷ text) =
    if b == 45
    then negated (bounded (2 ^ 63 + 1) (some_digits text))
    else if b == 43
    then not_negated (bounded (2 ^ 63) (some_digits text))
    else not_negated (bounded (2 ^ 63) (some_digits (b ∷ text)))

-- parseCoreMetric: the number of the core, if there is one
unfoldable pub parse_core_metric : Text → Option ℤ
parse_core_metric s =
    let middle = trim_suffix (skip 8 s) (bytes "_pct") in
    if not (has_prefix s (bytes "cpu.core")) || not (has_suffix s (bytes "_pct"))
    then none
    else if is_empty middle
    then none
    else atoi middle

unfoldable pub less_by : Option ℤ → Option ℤ → Bool → Bool
less_by (some m) (some n) otherwise = ltb_ℤ m n
less_by (some m) none otherwise = otherwise
less_by none n otherwise = otherwise

-- metricLess
unfoldable pub metric_less : Text → Text → Bool
metric_less a b = less_by (parse_core_metric a) (parse_core_metric b) (text_ltb a b)

unfoldable pub is_merged : Text → List Text → Bool
is_merged m [] = false
is_merged m (n ∷ ns) = text_beq n m || is_merged m ns

-- A loop of mergeMetrics; what is seen is what is merged.
unfoldable pub add_metrics : List Text → List Text → List Text
add_metrics [] merged = merged
add_metrics (m ∷ ms) merged =
    let skipped = add_metrics ms merged in
    let added = add_metrics ms (merged ++ m ∷ []) in
    if is_empty m || is_merged m merged then skipped else added

-- mergeMetrics
unfoldable pub merge_metrics :
    ((Text → Text → Bool) → List Text → List Text) → List Text → List Text → List Text
merge_metrics sort_names a b = sort_names metric_less (add_metrics b (add_metrics a []))
