-- ===== src/Dashboard/Rules.antt =====
-- The editable rules of dashboard/dashboard.go. strings.EqualFold compares ASCII letters only.
pub mod Normal
pub mod Twice
use mini_edr.Prelude.Strings.{decimal, to_lower, trim_space, has_prefix}
use mini_edr.Prelude.{
  ℕ, zero, suc, ◌-◌, Text, text_eq, bytes, Bool, not, ◌&&◌, ◌||◌, ◌==◌, ◌!=◌, List, [], ◌∷◌, ◌++◌,
  Option, none, some, is_some, is_empty, length, if◌then◌else◌, Float64,
}
use mini_edr.Capturer.Info.{InfoData}
use mini_edr.Detection.Types.{
  Alert, RuleSpec, scalar, float64, Severity, severity_info, severity_low, severity_medium,
  severity_high, severity_critical, new_alert,
}
use mini_edr.Detection.Rules.{metric, or_zero}
use mini_edr.Detection.Ioc.{IocConfig, has_no_indicators}
use mini_edr.Detection.Ioc.Rule.{rule_ioc_match}
use mini_edr.Dashboard.Metric.Printer.{format_float}

pub record RuleDefinition (F : Type 0) : Type 0 where
  pub id : Text
  pub title : Text
  pub severity : Severity
  pub metric_name : Text
  pub op : Text
  pub value : F
  pub message : Text
  pub source : Text
  pub enabled : Bool

abbrev pub is_op : Text → Bool
is_op op =
    op == bytes ">"
    || op == bytes ">="
    || op == bytes "<"
    || op == bytes "<="
    || op == bytes "=="
    || op == bytes "!="

unfoldable pub normalize_op : Text → Text
normalize_op op = if is_op (trim_space op) then trim_space op else bytes ">="

abbrev pub is_severity : Severity → Bool
is_severity s =
    s == severity_info
    || s == severity_low
    || s == severity_medium
    || s == severity_high
    || s == severity_critical

unfoldable pub normalize_severity : Severity → Severity
normalize_severity s = if is_severity (to_lower s) then to_lower s else severity_info

-- `if rule.ID == "" { rule.ID = fmt.Sprintf("custom.rule.%d", i+1) }`
unfoldable pub id_or_default : ℕ → Text → Text
id_or_default i id = if is_empty id then bytes "custom.rule." ++ decimal (suc i) else id

unfoldable pub title_or_default : Text → Text → Text → Text
title_or_default id name title =
    if is_empty title
    then if not (is_empty id) then id else if not (is_empty name) then name else title
    else title

module _ {F : Type 0} where
  -- The body of the loop of normalizeRulesConfig, for the rule with index `i`.
  unfoldable pub normalize_rule : ℕ → RuleDefinition F → RuleDefinition F
  normalize_rule i r =
      let id = id_or_default i (trim_space r.id) in
      record r {
        id = id;
        title = title_or_default id (trim_space r.metric_name) (trim_space r.title);
        severity = normalize_severity r.severity;
        metric_name = trim_space r.metric_name;
        op = normalize_op r.op;
        message = trim_space r.message;
        source = trim_space r.source;
      }

  unfoldable pub normalize_rules_from : ℕ → List (RuleDefinition F) → List (RuleDefinition F)
  normalize_rules_from i [] = []
  normalize_rules_from i (r ∷ rules) =
      let rule = normalize_rule i r in
      let rest = normalize_rules_from (suc i) rules in
      if is_empty rule.metric_name then rest else rule ∷ rest

  -- normalizeRulesConfig
  unfoldable pub normalize_rules_config : List (RuleDefinition F) → List (RuleDefinition F)
  normalize_rules_config rules = normalize_rules_from 0 rules

module _ {F : Type 0} ⦃fl : Float64 F⦄ where
  -- The two sums that metricValue knows, where the report has no such metric.
  unfoldable pub derived_metric : InfoData F → Text → Option F
  derived_metric info key =
      let rx = metric info (bytes "net.rx_bytes_per_sec") in
      let tx = metric info (bytes "net.tx_bytes_per_sec") in
      let added = metric info (bytes "persist.added") in
      let changed = metric info (bytes "persist.changed") in
      let removed = metric info (bytes "persist.removed") in
      if key == bytes "net.total_bytes_per_sec"
      then if not (is_some rx) && not (is_some tx)
        then none
        else some (fl.add (or_zero rx) (or_zero tx))
      else if key == bytes "persist.total_changes"
      then if not (is_some added) && not (is_some changed) && not (is_some removed)
        then none
        else some (fl.add (fl.add (or_zero added) (or_zero changed)) (or_zero removed))
      else none

  unfoldable pub metric_value : InfoData F → Text → Option F
  metric_value info key = elim (metric info key) [
    | some v ↦ some v
    | none ↦ derived_metric info key
  ]

  unfoldable pub compare_metric : F → Text → F → Bool
  compare_metric value op threshold =
      if op == bytes ">"
      then fl.lt threshold value
      else if op == bytes ">="
      then fl.le threshold value
      else if op == bytes "<"
      then fl.lt value threshold
      else if op == bytes "<="
      then fl.le value threshold
      else if op == bytes "=="
      then fl.eq value threshold
      else if op == bytes "!="
      then not (fl.eq value threshold)
      else fl.le threshold value

-- strings.ReplaceAll(s, old, new) for an `old` that is not empty; `skip` bytes are left of a match.
unfoldable pub replace_from : ℕ → Text → Text → Text → Text
replace_from skip old new [] = []
replace_from zero old new (c ∷ s) =
    let hit = has_prefix (c ∷ s) old in
    let rest = replace_from (if hit then length old - 1 else zero) old new s in
    if hit then new ++ rest else c ∷ rest
replace_from (suc skip) old new (c ∷ s) = replace_from skip old new s

module _ {F : Type 0} ⦃fl : Float64 F⦄ where
  unfoldable pub render_template : Text → Text → F → F → Text
  render_template template name value threshold =
      if is_empty template
      then []
      else (let with_name = replace_from 0 (bytes "{metric}") name template in
          let with_value = replace_from 0 (bytes "{value}") (format_float value) with_name in
          replace_from 0 (bytes "{threshold}") (format_float threshold) with_value)

  unfoldable pub message_or_default : RuleDefinition F → F → Text → Text
  message_or_default def val message =
      if is_empty message
      then def.metric_name
        ++ bytes "="
        ++ format_float val
        ++ bytes " "
        ++ def.op
        ++ bytes " "
        ++ format_float def.value
      else message

  -- The alert of a rule for a value that meets its condition.
  unfoldable pub metric_alert : RuleDefinition F → F → Alert F
  metric_alert def val =
      record (new_alert def.id
        (message_or_default def val (render_template def.message def.metric_name val def.value))
        ((def.metric_name, scalar (float64 val)) ∷ []) []) {
          title = render_template def.title def.metric_name val def.value;
          severity = def.severity;
        }

  unfoldable pub eval_metric_rule : RuleDefinition F → InfoData F → List (Alert F)
  eval_metric_rule def info =
      if not (is_empty def.source) && not (to_lower def.source == to_lower info.meta.capturer)
      then []
      else elim (metric_value info def.metric_name) [
        | none ↦ []
        | some val ↦ if compare_metric val def.op def.value then metric_alert def val ∷ [] else []
      ]

  unfoldable pub build_metric_rule : RuleDefinition F → RuleSpec F
  build_metric_rule def = record {
    id = def.id;
    title = def.title;
    description = [];
    severity = def.severity;
    tags = [];
    source = def.source;
    dedup_key = [];
    eval = some (eval_metric_rule def);
  }

  unfoldable pub enabled_specs : List (RuleDefinition F) → List (RuleSpec F)
  enabled_specs [] = []
  enabled_specs (r ∷ rules) =
      let rest = enabled_specs rules in if not r.enabled then rest else build_metric_rule r ∷ rest

  -- rebuildDetectorLocked: the rules that the server keeps, and those of its new detector.
  unfoldable pub rebuild_detector :
      List (RuleDefinition F) → IocConfig → List (RuleDefinition F) × List (RuleSpec F)
  rebuild_detector rules ioc =
      let cfg = normalize_rules_config rules in
      (cfg, enabled_specs cfg ++ (if has_no_indicators ioc then [] else rule_ioc_match ioc ∷ []))
