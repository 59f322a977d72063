-- ===== src/Detection/Rules.antt =====
-- detection_rules.go: the built-in rules.
pub mod Keys
use mini_edr.Prelude.Strings.{decimal_ℤ}
use mini_edr.Prelude.{
  ℤ, pos, Text, text_eq, bytes, Bool, not, ◌&&◌, List, [], ◌∷◌, ◌++◌, Option, none, some, is_some,
  lookup, ltb_ℤ, if◌then◌else◌, Float64,
}
use mini_edr.Capturer.Info.{InfoData}
use mini_edr.Detection.Types.{
  Alert, RuleSpec, scalar, float64, int, Severity, severity_low, severity_medium, severity_high,
  new_alert,
}

module _ {F : Type 0} where
  unfoldable pub metric : InfoData F → Text → Option F
  metric info key = elim info.metrics [ none ↦ none | some m ↦ lookup key m ]

module _ {F : Type 0} ⦃fl : Float64 F⦄ where
  -- The value that stands beside `ok`: 0 for a missing metric.
  abbrev pub or_zero : Option F → F
  or_zero none = fl.of_int (pos 0)
  or_zero (some x) = x

  -- `x >= y`
  abbrev pub at_least : F → F → Bool
  at_least x y = fl.le y x

  abbrev pub rule : Text → Text → Severity → (InfoData F → List (Alert F)) → RuleSpec F
  rule id title severity eval = record {
    id = id;
    title = title;
    description = [];
    severity = severity;
    tags = [];
    source = [];
    dedup_key = [];
    eval = some eval;
  }

  unfoldable pub eval_cpu_high : F → InfoData F → List (Alert F)
  eval_cpu_high threshold info = elim (metric info (bytes "cpu.total_pct")) [
    | none ↦ []
    | some val ↦
        if fl.lt val threshold
        then []
        else new_alert (bytes "cpu.high_usage")
            (bytes "CPU usage "
              ++ fl.fixed 2 val
              ++ bytes "% exceeds threshold "
              ++ fl.fixed 0 threshold
              ++ bytes "%")
            ((bytes "cpu.total_pct", scalar (float64 val)) ∷ []) []
          ∷ []
  ]

  abbrev pub rule_cpu_high : F → RuleSpec F
  rule_cpu_high threshold =
      rule (bytes "cpu.high_usage") (bytes "High CPU usage") severity_medium
        (eval_cpu_high threshold)

  unfoldable pub ram_alert : F → Option F → List (Alert F)
  ram_alert threshold none = []
  ram_alert threshold (some ram) =
      if at_least ram threshold
      then new_alert (bytes "mem.pressure")
          (bytes "RAM usage "
            ++ fl.fixed 2 ram
            ++ bytes "% exceeds "
            ++ fl.fixed 0 threshold
            ++ bytes "%")
          ((bytes "mem.ram.used_pct", scalar (float64 ram)) ∷ []) (bytes "mem.pressure|ram")
        ∷ []
      else []

  unfoldable pub swap_alert : F → Option F → List (Alert F)
  swap_alert threshold none = []
  swap_alert threshold (some swap) =
      if at_least swap threshold
      then (record (new_alert (bytes "mem.pressure")
          (bytes "Swap usage "
            ++ fl.fixed 2 swap
            ++ bytes "% exceeds "
            ++ fl.fixed 0 threshold
            ++ bytes "%")
          ((bytes "mem.swap.used_pct", scalar (float64 swap)) ∷ []) (bytes "mem.pressure|swap")) {
            severity = severity_low;
          })
        ∷ []
      else []

  unfoldable pub eval_mem_pressure : F → F → InfoData F → List (Alert F)
  eval_mem_pressure ram_threshold swap_threshold info =
      ram_alert ram_threshold (metric info (bytes "mem.ram.used_pct"))
      ++ swap_alert swap_threshold (metric info (bytes "mem.swap.used_pct"))

  abbrev pub rule_mem_pressure : F → F → RuleSpec F
  rule_mem_pressure ram_threshold swap_threshold =
      rule (bytes "mem.pressure") (bytes "Memory pressure") severity_medium
        (eval_mem_pressure ram_threshold swap_threshold)

  unfoldable pub eval_proc_burst : ℤ → InfoData F → List (Alert F)
  eval_proc_burst limit info = elim (metric info (bytes "proc.new")) [
    | none ↦ []
    | some count ↦
        if ltb_ℤ (fl.trunc count) limit
        then []
        else new_alert (bytes "proc.burst")
            (decimal_ℤ (fl.trunc count)
              ++ bytes " new processes detected (limit "
              ++ decimal_ℤ limit
              ++ bytes ")")
            ((bytes "proc.new", scalar (int (fl.trunc count))) ∷ []) []
          ∷ []
  ]

  abbrev pub rule_proc_burst : ℤ → RuleSpec F
  rule_proc_burst limit =
      rule (bytes "proc.burst") (bytes "Process burst") severity_medium (eval_proc_burst limit)

  unfoldable pub eval_net_spike : F → InfoData F → List (Alert F)
  eval_net_spike limit info =
      let rx = metric info (bytes "net.rx_bytes_per_sec") in
      let tx = metric info (bytes "net.tx_bytes_per_sec") in
      let total = fl.add (or_zero rx) (or_zero tx) in
      if not (is_some rx) && not (is_some tx)
      then []
      else if fl.lt total limit
      then []
      else new_alert (bytes "net.spike")
          (bytes "Network throughput "
            ++ fl.fixed 0 total
            ++ bytes "B/s exceeds "
            ++ fl.fixed 0 limit
            ++ bytes "B/s")
          ((bytes "net.rx_bytes_per_sec", scalar (float64 (or_zero rx)))
            ∷ (bytes "net.tx_bytes_per_sec", scalar (float64 (or_zero tx)))
            ∷ [])
          []
        ∷ []

  abbrev pub rule_net_spike : F → RuleSpec F
  rule_net_spike limit =
      rule (bytes "net.spike") (bytes "Network spike") severity_low (eval_net_spike limit)

  unfoldable pub eval_file_event_burst : ℤ → InfoData F → List (Alert F)
  eval_file_event_burst limit info = elim (metric info (bytes "file.events")) [
    | none ↦ []
    | some ev ↦
        if ltb_ℤ (fl.trunc ev) limit
        then []
        else new_alert (bytes "file.events_burst")
            (decimal_ℤ (fl.trunc ev)
              ++ bytes " file events detected (limit "
              ++ decimal_ℤ limit
              ++ bytes ")")
            ((bytes "file.events", scalar (int (fl.trunc ev))) ∷ []) []
          ∷ []
  ]

  abbrev pub rule_file_event_burst : ℤ → RuleSpec F
  rule_file_event_burst limit =
      rule (bytes "file.events_burst") (bytes "File change burst") severity_low
        (eval_file_event_burst limit)

  unfoldable pub eval_persistence_change : ℤ → InfoData F → List (Alert F)
  eval_persistence_change min_changes info =
      let added = metric info (bytes "persist.added") in
      let changed = metric info (bytes "persist.changed") in
      let removed = metric info (bytes "persist.removed") in
      let a = fl.trunc (or_zero added) in
      let c = fl.trunc (or_zero changed) in
      let r = fl.trunc (or_zero removed) in
      let total = fl.trunc (fl.add (fl.add (or_zero added) (or_zero changed)) (or_zero removed)) in
      if not (is_some added) && not (is_some changed) && not (is_some removed)
      then []
      else if ltb_ℤ total min_changes
      then []
      else new_alert (bytes "persist.change")
          (bytes "Persistence entries changed (added="
            ++ decimal_ℤ a
            ++ bytes " changed="
            ++ decimal_ℤ c
            ++ bytes " removed="
            ++ decimal_ℤ r
            ++ bytes ")")
          ((bytes "persist.added", scalar (int a))
            ∷ (bytes "persist.changed", scalar (int c))
            ∷ (bytes "persist.removed", scalar (int r))
            ∷ [])
          []
        ∷ []

  abbrev pub rule_persistence_change : ℤ → RuleSpec F
  rule_persistence_change min_changes =
      rule (bytes "persist.change") (bytes "Persistence modified") severity_high
        (eval_persistence_change min_changes)

  -- DefaultRules
  abbrev pub default_rules : List (RuleSpec F)
  default_rules =
      rule_cpu_high (fl.of_int (pos 90))
      ∷ rule_mem_pressure (fl.of_int (pos 90)) (fl.of_int (pos 60))
      ∷ rule_proc_burst (pos 10)
      ∷ rule_net_spike (fl.of_int (pos 1048576))
      ∷ rule_file_event_burst (pos 50)
      ∷ rule_persistence_change (pos 1)
      ∷ []
