-- ===== src/Dashboard/Metric/Saved/Names.antt =====
-- The metrics that normalizeCustomMetrics of dashboard/dashboard.go accepts.
use mini_edr.Prelude.Strings.{trim_space}
use mini_edr.Prelude.{
  Text, text_eq, text_beq_iff, false, ◌||◌, List, [], ◌∷◌, ◌≡◌, ◌≢◌, refl, arith, GoMap, has,
  insert, lookup-insert, All, All-imp, Pairs, is_empty, Bool-cases, inl, inr, Float64,
}
use mini_edr.Dashboard.Metric.Expr.{MetricExpr}
use mini_edr.Dashboard.Metric.Parser.{Result, ok, err, out_of_fuel, parse_metric_expr}
use mini_edr.Dashboard.Metric.Parser.Fuel.{parse_metric_expr_total}
use mini_edr.Dashboard.Metric.Eval.{CustomMetric}
use mini_edr.Dashboard.Metric.Saved.{
  CustomMetricPayload, Outcome, done, missing_expr, bad_expr, unread, with_parsed, collect,
  collect_custom_metrics,
}

-- The outcome is an error, or metrics with the property.
abbrev pub Accepts : {A : Type 0} → (A → Type 0) → Outcome A → Type 0
Accepts P (done a) = P a
Accepts P (missing_expr name) = Unit
Accepts P (bad_expr name e) = Unit
Accepts P unread = ⊥

Accepts-imp :
    {A : Type 0} {P Q : A → Type 0} (o : Outcome A)
    → ((a : A) → P a → Q a)
    → Accepts P o
    → Accepts Q o
Accepts-imp (done a) f h = f a h
Accepts-imp (missing_expr name) f h = tt
Accepts-imp (bad_expr name e) f h = tt
Accepts-imp unread f h = absurd h

module _ {F : Type 0} where
  -- Names that are not empty, differ from each other, and are not among those seen.
  abbrev pub IsFresh : GoMap Text (Unit {0}) → List (CustomMetric F) → Type 0
  IsFresh seen cms =
      All (λ c. (c.name ≢ []) × (has c.name seen ≡ false)) cms × Pairs (λ c d. c.name ≢ d.name) cms

  IsFresh-insert :
      (name : Text) (e : MetricExpr F) (seen : GoMap Text (Unit {0})) (cms : List (CustomMetric F))
      → name ≢ []
      → has name seen ≡ false
      → IsFresh (insert name tt seen) cms
      → IsFresh seen (record { name = name; value_of = e } ∷ cms)
  IsFresh-insert name e seen cms full new rest = (
    (
      (full, new),
      All-imp cms (λ c h. (h.0, ground (arith, h.1, lookup-insert name c.name tt seen))) rest.0,
    ),
    (
      All-imp cms
          (λ c h. ground (arith, h.1, lookup-insert name c.name tt seen, text_beq_iff name c.name))
          rest.0,
      rest.1,
    ),
  )

  with_parsed-Accepts :
      (name : Text) (r : Result (MetricExpr F)) (seen : GoMap Text (Unit {0}))
      (rest : Outcome (List (CustomMetric F)))
      → name ≢ []
      → has name seen ≡ false
      → r ≢ out_of_fuel
      → Accepts (IsFresh (insert name tt seen)) rest
      → Accepts (IsFresh seen) (with_parsed name r rest)
  unfolding with_parsed
  with_parsed-Accepts name (ok e) seen (done cms) full new parsed h =
      IsFresh-insert name e seen cms full new h
  with_parsed-Accepts name (ok e) seen (missing_expr n) full new parsed h = tt
  with_parsed-Accepts name (ok e) seen (bad_expr n p) full new parsed h = tt
  with_parsed-Accepts name (ok e) seen unread full new parsed h = absurd h
  with_parsed-Accepts name (err p) seen rest full new parsed h = tt
  with_parsed-Accepts name out_of_fuel seen rest full new parsed h = absurd (parsed refl)

module _ (F : Type 0) ⦃fl : Float64 F⦄ where
  collect-Accepts :
      (input : List CustomMetricPayload) (seen : GoMap Text (Unit {0}))
      → Accepts (IsFresh {F = F} seen) (collect input seen)
  unfolding collect
  collect-Accepts [] seen = (tt, tt)
  collect-Accepts (raw ∷ input) seen =
      elim (Bool-cases (is_empty (trim_space raw.name) || has (trim_space raw.name) seen)) [
        | inl skipped ↦ rw skipped (collect-Accepts input seen)
        | inr taken ↦ elim (Bool-cases (is_empty (trim_space raw.expr))) [
          | inl empty ↦ rw (taken, empty) tt
          | inr full ↦
              rw (taken, full)
                (with_parsed-Accepts (trim_space raw.name) (parse_metric_expr (trim_space raw.expr))
                  seen (collect input (insert (trim_space raw.name) tt seen))
                  (ground (arith, taken)) (ground (arith, taken))
                  (parse_metric_expr_total F (trim_space raw.expr))
                  (collect-Accepts input (insert (trim_space raw.name) tt seen)))
        ]
      ]

  -- normalizeCustomMetrics gives an error, or custom metrics whose names are not empty and differ from
  -- each other; the parser never runs out of fuel.
  pub collect_custom_metrics-IsFresh :
      (input : List CustomMetricPayload)
      → Accepts
          (λ cms. All (λ c. c.name ≢ []) cms × Pairs (λ c d. c.name ≢ d.name) cms)
          (collect_custom_metrics {F = F} input)
  unfolding collect_custom_metrics
  collect_custom_metrics-IsFresh input =
      Accepts-imp (collect input []) (λ cms h. (All-imp cms (λ c q. q.0) h.0, h.1))
        (collect-Accepts input [])
