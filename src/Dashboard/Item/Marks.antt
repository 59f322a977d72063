-- ===== src/Dashboard/Item/Marks.antt =====
-- The marks of an item, by which captureSingle of dashboard/dashboard.go tells a change and a capturer
-- that is warming up. `hide_times` is normalizePayload, and `sort_strings` is sort.Strings.
use mini_edr.Prelude.Strings.{texts, text_ltb}
use mini_edr.Prelude.World.{World}
use mini_edr.Prelude.Int.{ltb_ℤ}
use mini_edr.Prelude.{
  ℤ, pos, int_eq, ◌==◌, Text, text_eq, text_beq, bytes, Bool, false, not, ◌&&◌, List, [], ◌∷◌, ◌++◌,
  map, join, Option, none, some, GoMap, lookup, insert, keys, is_empty, if◌then◌else◌, Float64,
}
use mini_edr.Capturer.Info.{Time}
use mini_edr.Detection.Types.{RuleSpec}
use mini_edr.Dashboard.Metric.Eval.{CustomMetric, get_or}
use mini_edr.Dashboard.Summary.{dot}
use mini_edr.Dashboard.History.{LogEntry}
use mini_edr.Dashboard.Item.{Item, Watched, Shown, captured_item}

module _ {F : Type 0} ⦃fl : Float64 F⦄ where
  -- metricsFingerprint
  unfoldable pub metrics_fingerprint : (List Text → List Text) → GoMap Text F → Text
  metrics_fingerprint sort_strings m =
      let part : Text → Text = λ k. elim (lookup k m) [
        | none ↦ []
        | some v ↦ texts (k ∷ bytes "=" ∷ fl.fixed 4 v ∷ bytes ";" ∷ [])
      ] in
      if is_empty m then [] else texts (map part (sort_strings (keys m)))

  -- What a change of an item is told by
  unfoldable pub payload_of : (Text → Text) → (List Text → List Text) → Item F → Text
  payload_of hide_times sort_strings item = join (bytes "|") (
      hide_times item.info.summary
      ∷ metrics_fingerprint sort_strings (get_or [] item.info.metrics)
      ∷ hide_times item.verbose
      ∷ hide_times item.error
      ∷ [])

unfoldable pub is_changed : Option Text → Text → Bool
is_changed none payload = false
is_changed (some prev) payload = not (is_empty prev) && not (text_beq prev payload)

unfoldable pub warming_text : Bool → Text → Text
warming_text warming display =
    if warming
    then (if is_empty display then [] else display ++ dot) ++ bytes "warming up"
    else display

module _ {F : Type 0} where
  unfoldable pub is_warming : {S E : Type 0} → Watched S F E → S → Bool
  is_warming c state = elim c.is_warm [ none ↦ false | some f ↦ not (f state) ]

  -- The item with its marks, and the payload that is kept
  unfoldable pub marked_item : Bool → Text → Item F → Shown F → Item F × Shown F
  marked_item warming payload item s = (
    record item {
      changed = is_changed (lookup item.name s.last_payload) payload;
      warming = warming;
      display = warming_text warming item.display;
    },
    record s { last_payload = insert item.name payload s.last_payload },
  )

  unfoldable pub log_entry : Text → Item F → LogEntry
  log_entry ref item = record {
    at = ref;
    info = item.info.summary;
    verbose = item.verbose;
    error = item.error;
    changed = item.changed;
    warming = item.warming;
  }

module _ {S F E : Type 0} ⦃fl : Float64 F⦄ (find : Text → Text → List Text)
    (hide_times : Text → Text) (sort_strings : List Text → List Text) (host : Text)
    (zone : Time → Text) where
  -- captureSingle up to its lock: the item, and what the server keeps for the next one
  unfoldable pub capture_item :
      Watched S F E
      → List (RuleSpec F)
      → List (CustomMetric F)
      → S
      → Shown F
      → World E
      → Item F × Shown F × S × World E
  capture_item c specs customs state s w =
      let (err, state', w') = c.capturer.capture state w in
      let (item, s', w'') = captured_item find host zone c specs customs (err, state', w') s in
      let (marked, s'') =
        marked_item (is_warming c state') (payload_of hide_times sort_strings item) item s' in
      (marked, s'', state', w'')

-- The comparison that captureSingle sorts the items of the snapshot by
unfoldable pub item_less : {F : Type 0} → GoMap Text ℤ → Item F → Item F → Bool
item_less intervals a b =
    let interval_of : Text → ℤ =
      λ name. elim (lookup name intervals) [ none ↦ pos 0 | some iv ↦ iv ] in
    if interval_of a.name == interval_of b.name
    then text_ltb a.name b.name
    else ltb_ℤ (interval_of a.name) (interval_of b.name)
