-- ===== src/Tests/Rules.antt =====
-- detection_rules.go and the rules of dashboard/dashboard.go: runs and instances.
use mini_edr.Prelude.{ℤ, pos, text_eq, bytes, true, [], ◌∷◌, some, ◌≡◌, refl, int_floats}
use mini_edr.Prelude.Strings.{has_prefix, decimal_ℤ}
use mini_edr.Capturer.Info.{InfoData}
use mini_edr.Dashboard.Rules.{RuleDefinition, normalize_rules_config, render_template, replace_from}
use mini_edr.Dashboard.Rules.Twice.{normalize_rules_config_idem}
use mini_edr.Tests.Samples.{blank_info}

abbrev loaded : InfoData ℤ
loaded = record blank_info {
  metrics = some (
      (bytes "cpu.total_pct", pos 99)
      ∷ (bytes "mem.ram.used_pct", pos 95)
      ∷ (bytes "mem.swap.used_pct", pos 70)
      ∷ []);
}

-- A rule without identifier, title, known operator and known severity.
abbrev bare : RuleDefinition ℤ
bare = record {
  id = bytes " ";
  title = [];
  severity = bytes "HIGHEST";
  metric_name = bytes " cpu.total_pct";
  op = bytes "=>";
  value = pos 5;
  message = [];
  source = [];
  enabled = true;
}

-- The first rule is dropped, the second is given an identifier and a title.
normalize_rules_config_idem_example :
    normalize_rules_config (normalize_rules_config (record bare { metric_name = [] } ∷ bare ∷ []))
    ≡ normalize_rules_config (record bare { metric_name = [] } ∷ bare ∷ [])
normalize_rules_config_idem_example =
    normalize_rules_config_idem (record bare { metric_name = [] } ∷ bare ∷ [])

render_all :
    render_template (bytes "{metric}: {value} > {threshold}") (bytes "cpu") (pos 7) (pos 5)
    ≡ bytes "cpu: 7 > 5"
unfolding render_template replace_from has_prefix decimal_ℤ
render_all = refl
