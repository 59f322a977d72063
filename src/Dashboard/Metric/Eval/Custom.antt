-- ===== src/Dashboard/Metric/Eval/Custom.antt =====
-- The metrics after applyCustomMetrics of dashboard/dashboard.go.
use mini_edr.Prelude.{
  Any, Text, text_eq, List, [], ◌∷◌, ◌≡◌, ◌⊎◌, inl, inr, arith, some, Option-cases, Float64, GoMap,
  lookup, lookup-insert, text_beq_iff,
}
use mini_edr.Capturer.Info.{InfoData}
use mini_edr.Dashboard.Metric.Expr.{MetricExpr, expr, Args, no_args, arg}
use mini_edr.Dashboard.Metric.Eval.{
  CustomMetric, eval_metric_expr, eval_args, add_custom, add_customs, apply_custom_metrics, get_or,
}

-- Every entry of `m` is one of `n`.
abbrev pub Extends : {F : Type 0} → GoMap Text F → GoMap Text F → Type 0
Extends {F = F} m n = (k : Text) (v : F) → lookup k m ≡ some v → lookup k n ≡ some v

module _ {F : Type 0} ⦃fl : Float64 F⦄ (m n : GoMap Text F) (le : Extends m n) where
  mutual
    unfolding eval_metric_expr

    eval_metric_expr_monotone :
        (e : MetricExpr F) (v : F) → eval_metric_expr e m ≡ some v → eval_metric_expr e n ≡ some v
    eval_metric_expr_monotone (expr op args metric value) v h =
        elim (Option-cases (eval_args args m)) [
          | inl q ↦ ground (arith, le metric v, q)
          | inr (vs, q) ↦ ground (arith, le metric v, q, eval_args_monotone args vs q)
        ]

    eval_args_monotone :
        (args : Args F) (vs : List F) → eval_args args m ≡ some vs → eval_args args n ≡ some vs
    eval_args_monotone no_args vs h = h
    eval_args_monotone (arg e rest) vs h = elim (Option-cases (eval_metric_expr e m)) [
      | inl q ↦ ground (arith, q)
      | inr (x, q) ↦ elim (Option-cases (eval_args rest m)) [
        | inl r ↦ ground (arith, r)
        | inr (xs, r) ↦
            ground (arith, q, r, eval_metric_expr_monotone e x q, eval_args_monotone rest xs r)
      ]
    ]

module _ {F : Type 0} ⦃fl : Float64 F⦄ where
  add_custom-Extends : (c : CustomMetric F) (m : GoMap Text F) → Extends m (add_custom c m)
  unfolding add_custom
  add_custom-Extends c m k v h = elim (Option-cases (eval_metric_expr c.value_of m)) [
    | inl q ↦ ground (arith, q, h)
    | inr (x, q) ↦ ground (arith, q, h, lookup-insert c.name k x m, text_beq_iff c.name k)
  ]

  -- A new entry is the value of the custom metric over the metrics before it.
  add_custom_value :
      (c : CustomMetric F) (m : GoMap Text F) (k : Text) (v : F)
      → lookup k (add_custom c m) ≡ some v
      → (lookup k m ≡ some v) ⊎ ((c.name ≡ k) × (eval_metric_expr c.value_of m ≡ some v))
  unfolding add_custom
  add_custom_value c m k v h = elim (Option-cases (eval_metric_expr c.value_of m)) [
    | inl q ↦ ground (arith, q, h)
    | inr (x, q) ↦ ground (arith, q, h, lookup-insert c.name k x m, text_beq_iff c.name k)
  ]

  -- Custom metrics replace no metric of a capture, nor each other.
  pub add_customs-Extends :
      (cs : List (CustomMetric F)) (m : GoMap Text F) → Extends m (add_customs m cs)
  unfolding add_customs
  add_customs-Extends [] m k v h = h
  add_customs-Extends (c ∷ cs) m k v h =
      add_customs-Extends cs (add_custom c m) k v (add_custom-Extends c m k v h)

  -- Every metric of the result is one of the capture, or has the value that the expression of a custom
  -- metric of its name has over the result itself: later custom metrics change no earlier value.
  pub add_customs-IsSolution :
      (cs : List (CustomMetric F)) (m : GoMap Text F) (k : Text) (v : F)
      → lookup k (add_customs m cs) ≡ some v
      → (lookup k m ≡ some v)
        ⊎ Any (λ c. (c.name ≡ k) × (eval_metric_expr c.value_of (add_customs m cs) ≡ some v)) cs
  unfolding add_customs
  add_customs-IsSolution [] m k v h = inl h
  add_customs-IsSolution (c ∷ cs) m k v h =
      elim (add_customs-IsSolution cs (add_custom c m) k v h) [
        | inr later ↦ inr (inr later)
        | inl now ↦ elim (add_custom_value c m k v now) [
          | inl before ↦ inl before
          | inr (name, value) ↦ inr (
              inl (
                name,
                eval_metric_expr_monotone m (add_customs (add_custom c m) cs)
                    (λ j w e.
                      add_customs-Extends cs (add_custom c m) j w (add_custom-Extends c m j w e))
                    c.value_of v value,
              ))
        ]
      ]

  -- applyCustomMetrics keeps every metric of a capture with its value: a custom metric of the same
  -- name is left out.
  apply_custom_metrics_keeps :
      (info : InfoData F) (cs : List (CustomMetric F)) (k : Text) (v : F)
      → lookup k (get_or [] info.metrics) ≡ some v
      → lookup k (get_or [] (apply_custom_metrics info cs).metrics) ≡ some v
  unfolding apply_custom_metrics
  apply_custom_metrics_keeps info [] k v h = h
  apply_custom_metrics_keeps info (c ∷ cs) k v h =
      add_customs-Extends (c ∷ cs) (get_or [] info.metrics) k v h

  -- A metric of a capture after applyCustomMetrics was in the capture with that value, or it has the
  -- value that the expression of a custom metric of its name has over the resulting metrics: the
  -- custom metrics that are added later change no value that an earlier one was computed from.
  pub apply_custom_metrics-IsSolution :
      (info : InfoData F) (cs : List (CustomMetric F)) (k : Text) (v : F)
      → lookup k (get_or [] (apply_custom_metrics info cs).metrics) ≡ some v
      → (lookup k (get_or [] info.metrics) ≡ some v)
        ⊎ Any
            (λ c.
              (c.name ≡ k)
              × (eval_metric_expr c.value_of (get_or [] (apply_custom_metrics info cs).metrics)
                  ≡ some v))
            cs
  unfolding apply_custom_metrics
  apply_custom_metrics-IsSolution info [] k v h = inl h
  apply_custom_metrics-IsSolution info (c ∷ cs) k v h =
      add_customs-IsSolution (c ∷ cs) (get_or [] info.metrics) k v h
