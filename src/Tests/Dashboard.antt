-- ===== src/Tests/Dashboard.antt =====
-- Custom metrics of dashboard/dashboard.go: runs and instances.
use mini_edr.Prelude.{
  All, Pairs, Any, ℤ, pos, text_eq, text_beq, join, bytes, List, [], ◌∷◌, some, ◌≡◌, ◌≢◌, ◌⊎◌, refl,
  int_floats, lookup, insert, ◌-ℤ◌, true,
}
use mini_edr.Capturer.Info.{InfoData}
use mini_edr.Dashboard.Metric.Expr.{
  MetricExpr, metric, number, binary, add, sub, mul, op_text, op_precedence,
}
use mini_edr.Dashboard.Metric.Lexer.{
  next_token, token_at, skip_spaces, is_number_part, is_digit, is_ident_start, span, is_ident_part,
}
use mini_edr.Dashboard.Metric.Parser.{
  parse_expr, ok, err, unexpected_token, out_of_fuel, parse_metric_expr,
}
use mini_edr.Dashboard.Metric.Parser.Fuel.{parse_metric_expr_total}
use mini_edr.Dashboard.Metric.Printer.{bracket, format_with_prec, format_metric_expr}
use mini_edr.Dashboard.Metric.Printer.Brackets.{format_with_prec_forgets_right}
use mini_edr.Dashboard.Metric.Eval.{
  CustomMetric, add_customs, add_custom, apply_op, difference, product_from, less_all,
  eval_metric_expr, apply_custom_metrics, get_or,
}
use mini_edr.Dashboard.Metric.Eval.Custom.{apply_custom_metrics-IsSolution}
use mini_edr.Dashboard.Metric.Order.{
  metric_less, less_by, parse_core_metric, atoi, bounded, digits_value,
}
use mini_edr.Prelude.Strings.{has_prefix, text_ltb, skip, has_suffix, trim_suffix}
use mini_edr.Dashboard.Metric.Saved.{CustomMetricPayload, collect_custom_metrics}
use mini_edr.Dashboard.Metric.Saved.Names.{Accepts, collect_custom_metrics-IsFresh}
use mini_edr.Tests.Samples.{blank_info}

abbrev a : MetricExpr ℤ
a = metric (bytes "a")

abbrev b : MetricExpr ℤ
b = metric (bytes "b")

abbrev c : MetricExpr ℤ
c = metric (bytes "c")

-- Brackets and precedence; an error; a byte that starts no token ends the input unread.
parse_runs :
    (parse_metric_expr (bytes "a-(b+c)*a")
      ≡ ok (binary (op_text sub) a (binary (op_text mul) (binary (op_text add) b c) a)))
    × (parse_metric_expr {F = ℤ} (bytes "a b") ≡ err unexpected_token)
    × (parse_metric_expr (bytes "a & b") ≡ ok a)
unfolding parse_metric_expr parse_expr next_token token_at skip_spaces is_number_part is_digit
    is_ident_start span is_ident_part
parse_runs = (refl, refl, refl)

print_sum_in_product :
    format_metric_expr (binary (op_text mul) (binary (op_text add) a b) c) ≡ bytes "(a + b) * c"
unfolding format_with_prec bracket op_precedence text_beq join
print_sum_in_product = refl

parse_metric_expr_total_example : parse_metric_expr {F = ℤ} (bytes "-(a + b") ≢ out_of_fuel
parse_metric_expr_total_example = parse_metric_expr_total ℤ (bytes "-(a + b")

format_with_prec_forgets_right_example :
    format_metric_expr (binary (op_text sub) a (binary (op_text sub) b c))
    ≡ format_metric_expr (binary (op_text sub) (binary (op_text sub) a b) c)
format_with_prec_forgets_right_example = format_with_prec_forgets_right 0 sub sub a b c refl

abbrev measured : InfoData ℤ
measured = record blank_info { metrics = some ((bytes "a", pos 5) ∷ (bytes "b", pos 3) ∷ []) }

abbrev customs : List (CustomMetric ℤ)
customs =
    record { name = bytes "a"; value_of = number (pos 0) }
    ∷ record { name = bytes "c"; value_of = binary (op_text sub) a b }
    ∷ record { name = bytes "d"; value_of = binary (op_text mul) c c }
    ∷ []

apply_custom_metrics-IsSolution_example :
    (lookup (bytes "d") (get_or [] measured.metrics) ≡ some (pos 4))
    ⊎ Any
        (λ cm.
          (cm.name ≡ bytes "d")
          × (eval_metric_expr cm.value_of
                (get_or [] (apply_custom_metrics measured customs).metrics)
              ≡ some (pos 4)))
        customs
unfolding apply_custom_metrics lookup add_customs add_custom text_beq eval_metric_expr apply_op
    difference insert product_from less_all ◌-ℤ◌
apply_custom_metrics-IsSolution_example =
    apply_custom_metrics-IsSolution measured customs (bytes "d") (pos 4) refl

abbrev payloads : List CustomMetricPayload
payloads =
    record { name = bytes " c "; expr = bytes "a - b" }
    ∷ record { name = bytes "c"; expr = bytes "(" }
    ∷ []

collect_custom_metrics-IsFresh_example :
    Accepts
      (λ cms. All (λ cm. cm.name ≢ []) cms × Pairs (λ x y. x.name ≢ y.name) cms)
      (collect_custom_metrics {F = ℤ} payloads)
collect_custom_metrics-IsFresh_example = collect_custom_metrics-IsFresh ℤ payloads

-- metricLess is no order: three names precede one another in a circle.
metric_less_cycle :
    (metric_less (bytes "cpu.core10_pct") (bytes "cpu.core1a") ≡ true)
    × (metric_less (bytes "cpu.core1a") (bytes "cpu.core2_pct") ≡ true)
    × (metric_less (bytes "cpu.core2_pct") (bytes "cpu.core10_pct") ≡ true)
unfolding metric_less less_by parse_core_metric trim_suffix has_suffix skip atoi bounded
    digits_value has_prefix text_ltb text_beq
metric_less_cycle = (refl, refl, refl)
