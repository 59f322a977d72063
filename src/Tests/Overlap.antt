-- ===== src/Tests/Overlap.antt =====
-- alertsOverlap of dashboard/dashboard.go: runs and instances.
use mini_edr.Prelude.{
  ℕ, ◌+◌, ◌*◌, ℤ, pos, ◌-ℤ◌, Text, text_eq, text_beq, bytes, [], ◌∷◌, ◌≡◌, refl, GoMap, lookup,
  insert, List, Option, none, some, ◌≢◌, ◌↔◌, ◌⊎◌, Among, get_elem?, ap, is_some, is_empty,
  if◌then◌else◌, arith,
}
use mini_edr.Dashboard.Overlap.{
  AlertEntry, second, alerts_overlap, max_interval, longest, interval_for_alert, shared, truncate,
}
use mini_edr.Dashboard.Overlap.Correlate.{
  Indexed, indexed, relate_all, relate_later, relate_pair, is_past, related_of, relate, merge_ids,
  existing_ids, is_seen, correlate_alerts,
}
use mini_edr.Dashboard.Overlap.Correlate.Exact.{IsSorting, HasRelated}
use mini_edr.Dashboard.Overlap.Correlate.Result.{written_ids, correlate_alerts-HasRelated}

abbrev entry_at : ℕ → Text → AlertEntry
entry_at t source = record {
  id = bytes "x";
  at = [];
  at_time = t;
  severity = [];
  title = [];
  message = [];
  rule_id = [];
  source = source;
  evidence = [];
  meta = [];
  related = [];
}

abbrev early : AlertEntry
early = entry_at (100 * second + 7) (bytes "CPU")

abbrev late : AlertEntry
late = entry_at (103 * second + 5) (bytes "NET")

abbrev intervals : GoMap Text ℤ
intervals = (bytes "NET", pos (5 * second)) ∷ []

abbrev named : Text → ℕ → AlertEntry
named id t = record (entry_at t (bytes "NET")) { id = id }

abbrev entries : List AlertEntry
entries =
    named (bytes "a") (100 * second)
    ∷ named (bytes "b") (103 * second)
    ∷ named (bytes "c") (200 * second)
    ∷ []

abbrev as_they_stand : List Indexed → List Indexed
as_they_stand xs = xs

as_they_stand-IsSorting : IsSorting as_they_stand (indexed 0 entries)
unfolding indexed
as_they_stand-IsSorting = record {
  sorted = ground arith;
  distinct = ground arith;
  same = λ x. (λ h. h, λ h. h);
}

-- Lists of at most one identifier, which is written without brackets.
abbrev decode_one : Text → Option (List Text)
decode_one text =
    if is_empty text then none else if text_beq text (bytes "[]") then some [] else some (text ∷ [])

abbrev encode_one : List Text → Option Text
encode_one (id ∷ ids) = some id
encode_one [] = none

abbrev ids : List Text
ids =
    written_ids decode_one as_they_stand entries intervals (pos 0) 0
      (named (bytes "a") (100 * second))

ids_written : ids ≡ bytes "b" ∷ []
unfolding indexed relate_all relate_later relate_pair is_past related_of relate lookup insert
    merge_ids existing_ids is_seen text_beq alerts_overlap max_interval longest shared ◌-ℤ◌
    interval_for_alert truncate
ids_written = refl

encode_one-reads :
    (xs : List Text) (text : Text)
    → xs ≡ bytes "b" ∷ []
    → encode_one xs ≡ some text
    → decode_one text ≡ some xs
unfolding text_beq
encode_one-reads xs text e h = ground (arith, e, h)

correlate_alerts-HasRelated_example :
    (o : AlertEntry) × (get_elem?
        (correlate_alerts decode_one encode_one as_they_stand entries intervals (pos 0))
        0
      ≡ some (record (named (bytes "a") (100 * second)) { related = o.related }))
    × (Among (bytes "b") (existing_ids decode_one o.related) ↔ (
        ((bytes "b" ≢ []) × Among (bytes "b") (existing_ids decode_one []))
        ⊎ HasRelated intervals (pos 0) entries 0 (named (bytes "a") (100 * second)) (bytes "b")))
unfolding text_beq
correlate_alerts-HasRelated_example =
    correlate_alerts-HasRelated decode_one encode_one as_they_stand entries intervals (pos 0) 0
      (named (bytes "a") (100 * second)) (bytes "b") as_they_stand-IsSorting
      (λ text q. encode_one-reads ids text ids_written q)
      (ap (λ xs. is_some (encode_one xs)) ids_written) refl refl refl
