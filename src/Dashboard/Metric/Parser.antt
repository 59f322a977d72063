-- ===== src/Dashboard/Metric/Parser.antt =====
-- metricParser of dashboard/dashboard.go. Each call of a method and each round of its loops costs a
-- unit of fuel.
pub mod Fuel
use mini_edr.Prelude.{ℕ, zero, suc, ◌+◌, ◌*◌, pos, Text, Option, none, some, Float64, length}
use mini_edr.Dashboard.Metric.Expr.{
  MetricExpr, metric, number, binary, Op, add, sub, mul, div, op_text,
}
use mini_edr.Dashboard.Metric.Lexer.{Token, eof, lparen, rparen, ident, op, next_token}

-- The errors, without the text of the token that their messages quote.
pub data ParseError : Type 0 where
  unexpected_token invalid_number expected_rparen : ParseError

-- `out_of_fuel` has no counterpart in the program.
pub data Result {ℓ} (A : Type ℓ) : Type ℓ where
  ok : A → Result A
  err : ParseError → Result A
  out_of_fuel : Result A

infixl 5 ◌>>=◌
abbrev pub ◌>>=◌ {ℓ κ} : {A : Type ℓ} {B : Type κ} → Result A → (A → Result B) → Result B
ok a >>= f = f a
err e >>= f = err e
out_of_fuel >>= f = out_of_fuel

-- The current token, and the input behind it.
pub record State : Type 0 where
  pub cur : Token
  pub rest : Text

abbrev pub at_start : Text → State
at_start s = let (t, rest) = next_token s in record { cur = t; rest = rest }

-- (*metricParser).next
abbrev pub advance : State → State
advance s = at_start s.rest

-- `p.cur.typ == tokenPlus || p.cur.typ == tokenMinus`
abbrev pub add_op : Token → Option Op
add_op (op add) = some add
add_op (op sub) = some sub
add_op _ = none

-- `p.cur.typ == tokenMul || p.cur.typ == tokenDiv`
abbrev pub mul_op : Token → Option Op
mul_op (op mul) = some mul
mul_op (op div) = some div
mul_op _ = none

-- The closing bracket of a factor.
abbrev pub close : {F : Type 0} → MetricExpr F → State → Result (MetricExpr F × State)
close e s = elim s.cur [ rparen ↦ ok (e, advance s) | _ ↦ err expected_rparen ]

-- The whole input must be read.
abbrev pub finish : {F : Type 0} → MetricExpr F → State → Result (MetricExpr F)
finish e s = elim s.cur [ eof ↦ ok e | _ ↦ err unexpected_token ]

module _ {F : Type 0} ⦃fl : Float64 F⦄ where
  unfoldable mutual
    pub parse_expr : ℕ → State → Result (MetricExpr F × State)
    parse_expr zero s = out_of_fuel
    parse_expr (suc f) s = parse_term f s >>= λ (left, s'). expr_loop f left s'

    pub expr_loop : ℕ → MetricExpr F → State → Result (MetricExpr F × State)
    expr_loop zero left s = out_of_fuel
    expr_loop (suc f) left s = elim (add_op s.cur) [
      | none ↦ ok (left, s)
      | some o ↦
          parse_term f (advance s) >>= λ (right, s'). expr_loop f (binary (op_text o) left right) s'
    ]

    pub parse_term : ℕ → State → Result (MetricExpr F × State)
    parse_term zero s = out_of_fuel
    parse_term (suc f) s = parse_factor f s >>= λ (left, s'). term_loop f left s'

    pub term_loop : ℕ → MetricExpr F → State → Result (MetricExpr F × State)
    term_loop zero left s = out_of_fuel
    term_loop (suc f) left s = elim (mul_op s.cur) [
      | none ↦ ok (left, s)
      | some o ↦ parse_factor f (advance s) >>= λ (right, s').
          term_loop f (binary (op_text o) left right) s'
    ]

    pub parse_factor : ℕ → State → Result (MetricExpr F × State)
    parse_factor zero s = out_of_fuel
    parse_factor (suc f) s = elim s.cur [
      | Token.number val ↦ elim (fl.parse val) [
        | none ↦ err invalid_number
        | some x ↦ ok (number x, advance s)
      ]
      | ident name ↦ ok (metric name, advance s)
      | op sub ↦ parse_factor f (advance s) >>= λ (factor, s').
          ok (binary (op_text sub) (number (fl.of_int (pos 0))) factor, s')
      | lparen ↦ parse_expr f (advance s) >>= λ (e, s'). close e s'
      | _ ↦ err unexpected_token
    ]

  -- parseMetricExpr
  unfoldable pub parse_metric_expr : Text → Result (MetricExpr F)
  parse_metric_expr input =
      parse_expr (4 * length input + 8) (at_start input) >>= λ (e, s). finish e s
