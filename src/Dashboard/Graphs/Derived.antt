-- ===== src/Dashboard/Graphs/Derived.antt =====
-- deriveGraphs of dashboard/dashboard.go, with what it reads from the summary of a report. `find` is
-- FindStringSubmatch of a regular expression, which gives the match and its groups; `count_scale` is
-- the function that the caller passes, with the scales that it changes.
use mini_edr.Prelude.Strings.{to_upper, contains}
use mini_edr.Prelude.{
  ℤ, pos, negsuc, leb_ℤ, int_eq, ◌==◌, Text, bytes, List, [], ◌∷◌, ◌++◌, Option, none, some,
  if◌then◌else◌, Float64,
}
use mini_edr.Capturer.Info.{InfoData}
use mini_edr.Capturer.Cpu.{clamp_percent}
use mini_edr.Detection.Rules.{metric}
use mini_edr.Dashboard.Metric.Order.{atoi}
use mini_edr.Dashboard.Graphs.{Graph, auto_net_scale, clamp_graph_value, count_gauge, human_bytes}

abbrev minus_one : ℤ
minus_one = negsuc 0

unfoldable pub int_or_minus_one : Option ℤ → ℤ
int_or_minus_one none = minus_one
int_or_minus_one (some n) = n

-- The one group of a match
unfoldable pub one_group : List Text → Option Text
one_group (whole ∷ group ∷ []) = some group
one_group other = none

module _ {F : Type 0} ⦃fl : Float64 F⦄ where
  unfoldable pub percent_of_group : Option Text → Option F
  percent_of_group none = none
  percent_of_group (some group) = elim (fl.parse group) [
    | none ↦ none
    | some v ↦ some (clamp_percent v)
  ]

  -- The two groups of a match, both numbers
  unfoldable pub both_rates : Option F → Option F → Option (F × F)
  both_rates none tx = none
  both_rates (some rx) none = none
  both_rates (some rx) (some tx) = some (rx, tx)

  unfoldable pub rates_of_groups : List Text → Option (F × F)
  rates_of_groups (whole ∷ rx ∷ tx ∷ []) = both_rates (fl.parse rx) (fl.parse tx)
  rates_of_groups other = none

  -- A gauge of a percentage, if there is one
  unfoldable pub percent_graph : Text → Option F → List (Graph F)
  percent_graph label none = []
  percent_graph label (some pct) =
      record {
        label = label;
        shown_value = pct;
        display = clamp_graph_value pct;
        value_text = fl.fixed 1 pct ++ bytes "%";
        max_hint = [];
      }
      ∷ []

  unfoldable pub first_of : Option F → Option F → Option F
  first_of (some x) other = some x
  first_of none other = other

  -- metricInt
  unfoldable pub metric_int : InfoData F → Text → ℤ
  metric_int info key = elim (metric info key) [ none ↦ minus_one | some v ↦ fl.trunc v ]

  unfoldable pub scale_or_auto : F → F → F
  scale_or_auto total scale =
      if fl.le scale (fl.of_int (pos 0)) then auto_net_scale total else scale

  -- The gauge of the traffic
  unfoldable pub net_graph : F → Option (F × F) → List (Graph F)
  net_graph net_scale none = []
  net_graph net_scale (some (rx, tx)) =
      let total = fl.add rx tx in
      let scale = scale_or_auto total net_scale in
      let hundred = fl.of_int (pos 100) in
      let share = fl.mul (fl.div total scale) hundred in
      let pct = clamp_graph_value (if fl.lt hundred share then hundred else share) in
      record {
        label = bytes "NET\nthroughput";
        shown_value = pct;
        display = pct;
        value_text = human_bytes total ++ bytes "/s";
        max_hint = bytes "Max=" ++ (human_bytes scale ++ bytes "/s");
      }
      ∷ []

module _ {F : Type 0} ⦃fl : Float64 F⦄ (find : Text → Text → List Text) where
  -- extractPercent
  unfoldable pub extract_percent : Text → Text → Option F
  extract_percent s pattern = percent_of_group (one_group (find pattern s))

module _ (find : Text → Text → List Text) where
  unfoldable pub int_of_group : Option Text → ℤ
  int_of_group none = minus_one
  int_of_group (some group) = int_or_minus_one (atoi group)

  -- extractInt, whose result is -1 where it fails
  unfoldable pub extract_int : Text → Text → ℤ
  extract_int s pattern = int_of_group (one_group (find pattern s))

module _ {F : Type 0} ⦃fl : Float64 F⦄ (find : Text → Text → List Text) where
  -- extractRates
  unfoldable pub extract_rates : Text → Option (F × F)
  extract_rates info = rates_of_groups (find (bytes "rxRate=(\\d+)B/s, txRate=(\\d+)B/s") info)

  -- extractRatesMetrics
  unfoldable pub extract_rates_metrics : InfoData F → Option (F × F)
  extract_rates_metrics info =
      elim (both_rates (metric info (bytes "net.rx_bytes_per_sec"))
        (metric info (bytes "net.tx_bytes_per_sec"))) [
          | none ↦ extract_rates info.summary
          | some rates ↦ some rates
        ]

  -- A percentage from the metrics, or else from the summary
  unfoldable pub percent_of : InfoData F → Text → Text → Option F
  percent_of info key pattern =
      first_of (metric info key) (extract_percent find info.summary pattern)

  -- A number from the metrics, or else from the summary
  unfoldable pub count_of : InfoData F → Text → Text → ℤ
  count_of info key pattern =
      let n = metric_int info key in
      if n == minus_one then extract_int find info.summary pattern else n

  module _ {S : Type 0} (count_scale : Text → F → S → F × S) where
    -- A gauge for each number that is not negative, in order
    unfoldable pub count_graphs : List (Text × ℤ) → S → List (Graph F) × S
    count_graphs [] scales = ([], scales)
    count_graphs (entry ∷ counts) scales =
        let (scale, scales') = count_scale entry.0 (fl.of_int entry.1) scales in
        let (graphs, scales'') = count_graphs counts scales' in
        let without = count_graphs counts scales in
        if leb_ℤ (pos 0) entry.1
        then (count_gauge entry.0 entry.1 scale ∷ graphs, scales'')
        else without

    -- deriveGraphs
    unfoldable pub derive_graphs : Text → InfoData F → F → S → List (Graph F) × S
    derive_graphs name info net_scale scales =
        let up = to_upper name in
        if contains up (bytes "MEM")
        then (
          percent_graph (bytes "RAM used") (
                percent_of info (bytes "mem.ram.used_pct")
                  (bytes "UsedApprox=[^()]*\\(([\\d\\.]+)%\\)"))
              ++ percent_graph (bytes "Swap used") (
                  percent_of info (bytes "mem.swap.used_pct")
                    (bytes "Swap: Total=[\\d]+B Used=[\\d]+B \\(([\\d\\.]+)%\\)")),
          scales,
        )
        else if contains up (bytes "CPU")
        then (
          percent_graph (bytes "CPU avg")
              (percent_of info (bytes "cpu.total_pct") (bytes "totalUsage=([\\d\\.]+)%")),
          scales,
        )
        else if contains up (bytes "DISK")
        then (
          percent_graph (bytes "DISK used")
              (percent_of info (bytes "disk.used_pct") (bytes "used=([\\d\\.]+)%")),
          scales,
        )
        else if contains up (bytes "NET")
        then (net_graph net_scale (extract_rates_metrics info), scales)
        else if contains up (bytes "CONN")
        then count_graphs
            ((bytes "Conns", count_of info (bytes "conn.total") (bytes "conns=([\\d]+)"))
              ∷ (bytes "New conns", count_of info (bytes "conn.new") (bytes "new=([\\d]+)"))
              ∷ (bytes "Closed", count_of info (bytes "conn.dead") (bytes "dead=([\\d]+)"))
              ∷ [])
            scales
        else if contains up (bytes "FILECHANGE")
        then count_graphs
            ((bytes "File events", count_of info (bytes "file.events") (bytes "events=([\\d]+)"))
              ∷ [])
            scales
        else if contains up (bytes "PROC")
        then count_graphs
            ((bytes "Procs", count_of info (bytes "proc.total") (bytes "procs=([\\d]+)"))
              ∷ (bytes "New procs", count_of info (bytes "proc.new") (bytes "new=([\\d]+)"))
              ∷ (bytes "Dead procs", count_of info (bytes "proc.dead") (bytes "dead=([\\d]+)"))
              ∷ [])
            scales
        else if contains up (bytes "PERSIST")
        then count_graphs
            ((bytes "Added", count_of info (bytes "persist.added") (bytes "added=([\\d]+)"))
              ∷ (
                bytes "Changed",
                count_of info (bytes "persist.changed") (bytes "changed=([\\d]+)"),
              )
              ∷ (
                bytes "Removed",
                count_of info (bytes "persist.removed") (bytes "removed=([\\d]+)"),
              )
              ∷ [])
            scales
        else ([], scales)
