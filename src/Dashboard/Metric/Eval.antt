-- ===== src/Dashboard/Metric/Eval.antt =====
-- evalMetricExpr and applyCustomMetrics of dashboard/dashboard.go.
pub mod Custom
use mini_edr.Prelude.{
  pos, Text, text_eq, bytes, List, [], ◌∷◌, Bool, true, false, ◌||◌, ◌==◌, Option, none, some,
  Float64, GoMap, lookup, insert, has, is_empty, if◌then◌else◌,
}
use mini_edr.Capturer.Info.{InfoData}
use mini_edr.Dashboard.Metric.Expr.{MetricExpr, expr, Args, no_args, arg}

abbrev pub get_or : {A : Type 0} → A → Option A → A
get_or d none = d
get_or d (some a) = a

abbrev pub no_arguments : {F : Type 0} → Args F → Bool
no_arguments no_args = true
no_arguments (arg e rest) = false

module _ {F : Type 0} ⦃fl : Float64 F⦄ where
  -- The loops over the values of the arguments.
  unfoldable pub sum_from : F → List F → F
  sum_from total [] = total
  sum_from total (x ∷ xs) = sum_from (fl.add total x) xs

  unfoldable pub product_from : F → List F → F
  product_from total [] = total
  product_from total (x ∷ xs) = product_from (fl.mul total x) xs

  unfoldable pub less_all : F → List F → F
  less_all val [] = val
  less_all val (x ∷ xs) = less_all (fl.sub val x) xs

  unfoldable pub over_all : F → List F → Option F
  over_all val [] = some val
  over_all val (x ∷ xs) = if fl.eq x (fl.of_int (pos 0)) then none else over_all (fl.div val x) xs

  unfoldable pub difference : List F → Option F
  difference [] = none
  difference (x ∷ []) = some (fl.neg x)
  difference (x ∷ y ∷ ys) = some (less_all x (y ∷ ys))

  unfoldable pub quotient : List F → Option F
  quotient [] = none
  quotient (x ∷ xs) = over_all x xs

  -- switch expr.Op
  unfoldable pub apply_op : Text → List F → Option F
  apply_op op xs =
      if op == bytes "+"
      then some (sum_from (fl.of_int (pos 0)) xs)
      else if op == bytes "-"
      then difference xs
      else if op == bytes "*"
      then some (product_from (fl.of_int (pos 1)) xs)
      else if op == bytes "/"
      then quotient xs
      else none

  -- An argument without a value fails every operator, so the arguments are evaluated before the switch.
  unfoldable mutual
    pub eval_metric_expr : MetricExpr F → GoMap Text F → Option F
    eval_metric_expr (expr op args metric value) metrics =
        let vals = eval_args args metrics in
        if is_empty metric
        then elim value [
          | some x ↦ some x
          | none ↦
              if is_empty op || no_arguments args
              then none
              else elim vals [ some xs ↦ apply_op op xs | none ↦ none ]
        ]
        else lookup metric metrics

    pub eval_args : Args F → GoMap Text F → Option (List F)
    eval_args no_args metrics = some []
    eval_args (arg e rest) metrics =
        let x = eval_metric_expr e metrics in
        let xs = eval_args rest metrics in
        elim x [ none ↦ none | some v ↦ elim xs [ none ↦ none | some vs ↦ some (v ∷ vs) ] ]

pub record CustomMetric (F : Type 0) : Type 0 where
  pub name : Text
  pub value_of : MetricExpr F

module _ {F : Type 0} ⦃fl : Float64 F⦄ where
  -- The body of the loop of applyCustomMetrics.
  unfoldable pub add_custom : CustomMetric F → GoMap Text F → GoMap Text F
  add_custom cm metrics =
      if is_empty cm.name || has cm.name metrics
      then metrics
      else elim (eval_metric_expr cm.value_of metrics) [
        | none ↦ metrics
        | some val ↦ insert cm.name val metrics
      ]

  unfoldable pub add_customs : GoMap Text F → List (CustomMetric F) → GoMap Text F
  add_customs metrics [] = metrics
  add_customs metrics (cm ∷ customs) = add_customs (add_custom cm metrics) customs

  -- applyCustomMetrics; a nil map of metrics becomes an empty one when there are custom metrics.
  unfoldable pub apply_custom_metrics : InfoData F → List (CustomMetric F) → InfoData F
  apply_custom_metrics info [] = info
  apply_custom_metrics info (cm ∷ customs) = record info {
    metrics = some (add_customs (get_or [] info.metrics) (cm ∷ customs));
  }
