-- ===== src/Dashboard/Settings/Defaults.antt =====
-- defaultRulesConfig of dashboard/dashboard.go.
use mini_edr.Prelude.{ℕ, pos, Text, bytes, true, List, [], ◌∷◌, Float64}
use mini_edr.Detection.Types.{Severity, severity_low, severity_medium}
use mini_edr.Dashboard.Rules.{RuleDefinition}

module _ {F : Type 0} ⦃fl : Float64 F⦄ where
  -- A rule that compares with `>=` and is enabled, as all the default rules do
  abbrev default_rule : Text → Text → Severity → Text → ℕ → Text → Text → RuleDefinition F
  default_rule id title severity metric_name threshold message source = record {
    id = id;
    title = title;
    severity = severity;
    metric_name = metric_name;
    op = bytes ">=";
    value = fl.of_int (pos threshold);
    message = message;
    source = source;
    enabled = true;
  }

  unfoldable pub default_rules_config : List (RuleDefinition F)
  default_rules_config =
      default_rule (bytes "cpu.high_usage") (bytes "High CPU usage") severity_medium
        (bytes "cpu.total_pct") 90 (bytes "CPU usage {value}% exceeds threshold {threshold}%")
        (bytes "CPU")
      ∷ default_rule (bytes "mem.high_usage") (bytes "High RAM usage") severity_medium
          (bytes "mem.ram.used_pct") 90 (bytes "RAM usage {value}% exceeds {threshold}%")
          (bytes "MEM")
      ∷ default_rule (bytes "mem.swap_pressure") (bytes "Swap pressure") severity_low
          (bytes "mem.swap.used_pct") 60 (bytes "Swap usage {value}% exceeds {threshold}%")
          (bytes "MEM")
      ∷ default_rule (bytes "proc.burst") (bytes "Process burst") severity_medium (bytes "proc.new")
          10 (bytes "{value} new processes detected (limit {threshold})") (bytes "PROC")
      ∷ default_rule (bytes "net.spike") (bytes "Network spike") severity_low
          (bytes "net.total_bytes_per_sec") 1048576
          (bytes "Network throughput {value}B/s exceeds {threshold}B/s") (bytes "NET")
      ∷ default_rule (bytes "file.events_burst") (bytes "File change burst") severity_low
          (bytes "file.events") 50 (bytes "{value} file events detected (limit {threshold})")
          (bytes "FILECHANGE")
      ∷ default_rule (bytes "persist.change") (bytes "Persistence changes") severity_low
          (bytes "persist.total_changes") 1 (bytes "Persistence entries changed (total {value})")
          (bytes "PERSIST")
      ∷ []
