-- ===== src/Dashboard/Metric/Saved.antt =====
-- toCustomMetricPayload, and normalizeCustomMetrics of dashboard/dashboard.go up to its call of
-- sort.Slice, which orders the metrics by name.
pub mod Names
use mini_edr.Prelude.Strings.{trim_space}
use mini_edr.Prelude.{
  Text, text_eq, ◌||◌, List, [], ◌∷◌, GoMap, has, insert, is_empty, if◌then◌else◌, Float64,
}
use mini_edr.Dashboard.Metric.Expr.{MetricExpr}
use mini_edr.Dashboard.Metric.Parser.{Result, ok, err, out_of_fuel, ParseError, parse_metric_expr}
use mini_edr.Dashboard.Metric.Printer.{format_metric_expr}
use mini_edr.Dashboard.Metric.Eval.{CustomMetric}

pub record CustomMetricPayload : Type 0 where
  pub name : Text
  pub expr : Text

-- The two errors carry the name of the metric. `unread` stands for a parser without fuel.
pub data Outcome {ℓ} (A : Type ℓ) : Type ℓ where
  done : A → Outcome A
  missing_expr : Text → Outcome A
  bad_expr : Text → ParseError → Outcome A
  unread : Outcome A

-- What an earlier metric adds to the outcome for the later ones.
abbrev pub also {ℓ} : {A : Type ℓ} → A → Outcome (List A) → Outcome (List A)
also x (done xs) = done (x ∷ xs)
also x (missing_expr name) = missing_expr name
also x (bad_expr name e) = bad_expr name e
also x unread = unread

-- The end of the loop's body: the expression is parsed before the later metrics are looked at.
unfoldable pub with_parsed :
    {F : Type 0}
    → Text
    → Result (MetricExpr F)
    → Outcome (List (CustomMetric F))
    → Outcome (List (CustomMetric F))
with_parsed name (ok e) rest = also (record { name = name; value_of = e }) rest
with_parsed name (err e) rest = bad_expr name e
with_parsed name out_of_fuel rest = unread

module _ {F : Type 0} ⦃fl : Float64 F⦄ where
  unfoldable pub to_custom_metric_payload : List (CustomMetric F) → List CustomMetricPayload
  to_custom_metric_payload [] = []
  to_custom_metric_payload (cm ∷ list) =
      let rest = to_custom_metric_payload list in
      if is_empty cm.name
      then rest
      else record { name = cm.name; expr = format_metric_expr cm.value_of } ∷ rest

  unfoldable pub collect :
      List CustomMetricPayload → GoMap Text (Unit {0}) → Outcome (List (CustomMetric F))
  collect [] seen = done []
  collect (raw ∷ input) seen =
      let name = trim_space raw.name in
      let written = trim_space raw.expr in
      let skipped = is_empty name || has name seen in
      let rest = collect input (if skipped then seen else insert name tt seen) in
      if skipped
      then rest
      else if is_empty written
      then missing_expr name
      else with_parsed name (parse_metric_expr written) rest

  unfoldable pub collect_custom_metrics : List CustomMetricPayload → Outcome (List (CustomMetric F))
  collect_custom_metrics input = collect input []
