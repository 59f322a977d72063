-- ===== src/Dashboard/Metric/Printer/Brackets.antt =====
-- The brackets of formatMetricExprWithPrec.
use mini_edr.Prelude.{ℕ, Text, ◌≡◌, arith, Float64, join_assoc}
use mini_edr.Dashboard.Metric.Expr.{MetricExpr, binary, Op, op_text, op_precedence}
use mini_edr.Dashboard.Metric.Printer.{format_with_prec, bracket}

bracket_same : (n : ℕ) (out : Text) → bracket n n out ≡ out
unfolding bracket
bracket_same n out = ground arith

-- Two operators of one precedence: the brackets of the right argument are not printed, so the text is
-- that of the expression grouped to the left. `a - (b - c)` is printed as `a - b - c`.
pub format_with_prec_forgets_right :
    {F : Type 0} ⦃fl : Float64 F⦄ (parent : ℕ) (o p : Op) (a b c : MetricExpr F)
    → op_precedence (op_text o) ≡ op_precedence (op_text p)
    → format_with_prec parent (binary (op_text o) a (binary (op_text p) b c))
      ≡ format_with_prec parent (binary (op_text p) (binary (op_text o) a b) c)
unfolding format_with_prec
format_with_prec_forgets_right parent o p a b c q = rw q (simp (bracket_same, join_assoc))
