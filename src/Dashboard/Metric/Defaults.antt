-- ===== src/Dashboard/Metric/Defaults.antt =====
-- deriveDefaultMetrics of dashboard/dashboard.go: the metrics that the page of rules offers. An item is
-- its name with the metrics of its report.
use mini_edr.Prelude.Strings.{to_upper}
use mini_edr.Prelude.{
  ℕ, zero, suc, leb, length, is_empty, Text, text_eq, text_beq, bytes, Bool, false, ◌||◌, List, [],
  ◌∷◌, ◌++◌, GoMap, keys, if◌then◌else◌,
}
use mini_edr.Capturer.Cpu.Report.{core_key}
use mini_edr.Dashboard.Metric.Order.{is_merged, add_metrics, merge_metrics, metric_less}

module _ {F : Type 0} where
  -- The keys of all items
  unfoldable pub item_keys : List (Text × GoMap Text F) → List Text
  item_keys [] = []
  item_keys (item ∷ items) = keys item.1 ++ item_keys items

  -- An item of this name, in upper case
  unfoldable pub has_item : Text → List (Text × GoMap Text F) → Bool
  has_item name [] = false
  has_item name (item ∷ items) = text_beq (to_upper item.0) name || has_item name items

-- The keys of the cores from i on
unfoldable pub core_keys : ℕ → ℕ → List Text
core_keys i zero = []
core_keys i (suc n) = core_key i ∷ core_keys (suc i) n

-- hasAny, for what has been added
unfoldable pub has_any : List Text → List Text → Bool
has_any [] seen = false
has_any (k ∷ ks) seen = is_merged k seen || has_any ks seen

-- The calls of `add` under a condition
unfoldable pub add_if : Bool → List Text → List Text → List Text
add_if cond ks added = if cond then add_metrics ks added else added

module _ {F : Type 0} (sort_names : (Text → Text → Bool) → List Text → List Text)
    (num_cpu : ℕ) where
  -- deriveDefaultMetrics
  unfoldable pub derive_default_metrics : List (Text × GoMap Text F) → List Text
  derive_default_metrics items =
      let found = add_metrics (item_keys items) [] in
      let cpu =
        add_if (has_item (bytes "CPU") items) (bytes "cpu.total_pct" ∷ core_keys 0 num_cpu) found in
      let total = bytes "net.total_bytes_per_sec" in
      let rates = bytes "net.rx_bytes_per_sec" ∷ bytes "net.tx_bytes_per_sec" ∷ [] in
      let net = add_if (has_item (bytes "NET") items) (rates ++ total ∷ []) cpu in
      let with_total = add_if (has_any rates net) (total ∷ []) net in
      let changes =
        bytes "persist.added" ∷ bytes "persist.changed" ∷ bytes "persist.removed" ∷ [] in
      sort_names metric_less
        (add_if (has_any changes with_total) (bytes "persist.total_changes" ∷ []) with_total)

  -- What captureSingle keeps once every one of `count` capturers has an item
  unfoldable pub update_default_metrics : ℕ → List (Text × GoMap Text F) → List Text → List Text
  update_default_metrics count items defaults =
      let derived = derive_default_metrics items in
      if leb count (length items)
      then (if is_empty defaults
          then derived
          else if is_empty derived
          then defaults
          else merge_metrics sort_names defaults derived)
      else defaults
