-- ===== src/Dashboard/Metric/Expr.antt =====
-- MetricExpr of dashboard/dashboard.go, and `opPrecedence`.
use mini_edr.Prelude.{
  ℕ, Text, bytes, [], ◌∷◌, ◌||◌, Option, none, some, ◌==◌, text_eq, if◌then◌else◌,
}

-- The struct with all its fields, and the list of arguments inside it.
mutual
  pub data MetricExpr (F : Type 0) : Type 0 where
    expr : Text → Args F → Text → Option F → MetricExpr F

  pub data Args (F : Type 0) : Type 0 where
    no_args : Args F
    arg : MetricExpr F → Args F → Args F

module _ {F : Type 0} where
  -- MetricExpr{Metric: ident}
  abbrev pub metric : Text → MetricExpr F
  metric name = expr [] no_args name none

  -- MetricExpr{Value: &val}
  abbrev pub number : F → MetricExpr F
  number x = expr [] no_args [] (some x)

  -- MetricExpr{Op: op, Args: []MetricExpr{l, r}}
  abbrev pub binary : Text → MetricExpr F → MetricExpr F → MetricExpr F
  binary op l r = expr op (arg l (arg r no_args)) [] none

-- The operators that the parser reads.
pub data Op : Type 0 where
  add sub mul div : Op

abbrev pub op_byte : Op → ℕ
op_byte add = b'+'
op_byte sub = b'-'
op_byte mul = b'*'
op_byte div = b'/'

abbrev pub op_text : Op → Text
op_text o = op_byte o ∷ []

unfoldable pub op_precedence : Text → ℕ
op_precedence op =
    if op == bytes "*" || op == bytes "/"
    then 2
    else if op == bytes "+" || op == bytes "-"
    then 1
    else 0
