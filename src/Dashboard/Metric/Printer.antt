-- ===== src/Dashboard/Metric/Printer.antt =====
-- formatMetricExpr and formatFloat of dashboard/dashboard.go.
pub mod Brackets
use mini_edr.Prelude.{
  ℕ, Text, bytes, List, [], ◌∷◌, ◌++◌, ◌||◌, none, some, Float64, is_empty, join, ltb,
  if◌then◌else◌,
}
use mini_edr.Dashboard.Metric.Expr.{MetricExpr, expr, Args, no_args, arg, op_precedence}

abbrev pub format_float : {F : Type 0} → ⦃fl : Float64 F⦄ → F → Text
format_float ⦃fl⦄ x = fl.shortest x

-- The end of formatMetricExprWithPrec: brackets for a precedence below the one of the operator around.
unfoldable pub bracket : ℕ → ℕ → Text → Text
bracket prec parent out = if ltb prec parent then bytes "(" ++ out ++ bytes ")" else out

module _ {F : Type 0} ⦃fl : Float64 F⦄ where
  unfoldable mutual
    pub format_with_prec : ℕ → MetricExpr F → Text
    format_with_prec parent (expr op args metric value) =
        let parts = format_args (op_precedence op) args in
        if is_empty metric
        then elim value [
          | some x ↦ format_float x
          | none ↦
              if is_empty op || is_empty parts
              then []
              else bracket (op_precedence op) parent (join (bytes " " ++ op ++ bytes " ") parts)
        ]
        else metric

    pub format_args : ℕ → Args F → List Text
    format_args prec no_args = []
    format_args prec (arg e rest) = format_with_prec prec e ∷ format_args prec rest

  -- formatMetricExpr
  abbrev pub format_metric_expr : MetricExpr F → Text
  format_metric_expr e = format_with_prec 0 e
