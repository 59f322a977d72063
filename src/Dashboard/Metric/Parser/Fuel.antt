-- ===== src/Dashboard/Metric/Parser/Fuel.antt =====
-- What metricParser of dashboard/dashboard.go uses of its fuel and of the input.
use mini_edr.Prelude.{
  ℕ, zero, suc, ◌+◌, ◌*◌, ◌<◌, ◌≤◌, Text, Bool, [], ◌∷◌, Option, none, some, ◌≡◌, ◌≢◌, ◌⊎◌, refl,
  arith, length, Float64, inl,
}
use mini_edr.Dashboard.Metric.Expr.{MetricExpr, number, add, sub, mul, div}
use mini_edr.Dashboard.Metric.Lexer.{
  Token, eof, lparen, rparen, ident, op, span, skip_spaces, token_at, next_token, is_number_part,
  is_ident_part,
}
use mini_edr.Dashboard.Metric.Parser.{
  Result, ok, err, out_of_fuel, invalid_number, ◌>>=◌, State, at_start, advance, close, finish,
  parse_expr, expr_loop, parse_term, term_loop, parse_factor, parse_metric_expr,
}

-- The input that a state still has to read, with the current token.
abbrev pub measure : State → ℕ
measure s = elim s.cur [ eof ↦ 0 | _ ↦ suc (length s.rest) ]

length-span : (p : ℕ → Bool) (s : Text) → length (span p s).1 ≤ length s
unfolding span
length-span p [] = omega arith
length-span p (c ∷ s) = ground (arith, length-span p s)

length-skip_spaces : (s : Text) → length (skip_spaces s) ≤ length s
unfolding skip_spaces
length-skip_spaces [] = omega arith
length-skip_spaces (c ∷ s) = ground (arith, length-skip_spaces s)

token_at-shorter : (s : Text) → ((token_at s).0 ≡ eof) ⊎ (length (token_at s).1 < length s)
unfolding token_at
token_at-shorter [] = inl refl
token_at-shorter (c ∷ s) = ground (arith, length-span is_number_part s, length-span is_ident_part s)

-- A new token costs at least one byte.
pub measure-at_start : (s : Text) → measure (at_start s) ≤ length s
unfolding next_token
measure-at_start s = ground (arith, token_at-shorter (skip_spaces s), length-skip_spaces s)

-- The run kept within its fuel, and `P` holds of its value if it has one.
abbrev pub Within : {A : Type 0} → (A → Type 0) → Result A → Type 0
Within P (ok a) = P a
Within P (err e) = Unit
Within P out_of_fuel = ⊥

Within-bind :
    {A B : Type 0} (P : A → Type 0) (Q : B → Type 0) (r : Result A) (f : A → Result B)
    → Within P r
    → ((a : A) → P a → Within Q (f a))
    → Within Q (r >>= f)
Within-bind P Q (ok a) f h k = k a h
Within-bind P Q (err e) f h k = tt
Within-bind P Q out_of_fuel f h k = absurd h

-- A state whose token starts something has a byte to read at least.
measure-advance : (s : State) → s.cur ≢ eof → measure (advance s) < measure s
measure-advance s h = ground (arith, measure-at_start s.rest)

-- The value leaves less than `m` to read.
abbrev pub Below {ℓ} : {A : Type ℓ} → ℕ → A × State → Type 0
Below m r = measure r.1 < m

close-Within :
    {F : Type 0} (m : ℕ) (e : MetricExpr F) (t : Token) (rest : Text)
    → measure (record { cur = t; rest = rest }) < m
    → Within (Below m) (close e (record { cur = t; rest = rest }))
close-Within m e eof rest h = tt
close-Within m e lparen rest h = tt
close-Within m e rparen rest h = omega (arith, measure-at_start rest, h)
close-Within m e (Token.number w) rest h = tt
close-Within m e (ident w) rest h = tt
close-Within m e (op o) rest h = tt

finish-Within :
    {F : Type 0} (e : MetricExpr F) (t : Token) (rest : Text)
    → Within (λ _. Unit) (finish e (record { cur = t; rest = rest }))
finish-Within e eof rest = tt
finish-Within e lparen rest = tt
finish-Within e rparen rest = tt
finish-Within e (Token.number w) rest = tt
finish-Within e (ident w) rest = tt
finish-Within e (op o) rest = tt

number_result-Within :
    {F : Type 0} (o : Option F) (rest : Text)
    → Within
        (Below {A = MetricExpr F} (suc (length rest)))
        (elim o [ none ↦ err invalid_number | some x ↦ ok (number x, at_start rest) ])
number_result-Within none rest = tt
number_result-Within (some x) rest = omega (arith, measure-at_start rest)

Within-ne : {A : Type 0} (r : Result A) → Within (λ _. Unit) r → r ≢ out_of_fuel
Within-ne (ok a) h q = ground arith
Within-ne (err e) h q = ground arith
Within-ne out_of_fuel h q = absurd h

module _ (F : Type 0) ⦃fl : Float64 F⦄ where
  mutual
    unfolding parse_expr

    parse_expr-Within :
        (f : ℕ) (s : State)
        → 4 * measure s + 3 ≤ f
        → Within (Below {A = MetricExpr F} (measure s)) (parse_expr f s)
    parse_expr-Within zero s h = omega (arith, h)
    parse_expr-Within (suc f) s h =
        Within-bind (Below (measure s)) (Below (measure s)) _ _
          (parse_term-Within f s (omega (arith, h)))
          (λ (left, s') lt.
            expr_loop-Within f (measure s) left s'.cur s'.rest lt (omega (arith, h, lt)))

    expr_loop-Within :
        (f m : ℕ) (left : MetricExpr F) (t : Token) (rest : Text)
        → measure (record { cur = t; rest = rest }) < m
        → 4 * measure (record { cur = t; rest = rest }) + 1 ≤ f
        → Within (Below m) (expr_loop f left (record { cur = t; rest = rest }))
    expr_loop-Within zero m left t rest lt h = omega (arith, h)
    expr_loop-Within (suc f) m left (op add) rest lt h =
        Within-bind (Below (measure (at_start rest))) (Below m) _ _
          (parse_term-Within f (at_start rest) (omega (arith, h, measure-at_start rest)))
          (λ (right, s') below.
            expr_loop-Within f m _ s'.cur s'.rest (omega (arith, lt, below, measure-at_start rest))
              (omega (arith, h, below, measure-at_start rest)))
    expr_loop-Within (suc f) m left (op sub) rest lt h =
        Within-bind (Below (measure (at_start rest))) (Below m) _ _
          (parse_term-Within f (at_start rest) (omega (arith, h, measure-at_start rest)))
          (λ (right, s') below.
            expr_loop-Within f m _ s'.cur s'.rest (omega (arith, lt, below, measure-at_start rest))
              (omega (arith, h, below, measure-at_start rest)))
    expr_loop-Within (suc f) m left (op mul) rest lt h = lt
    expr_loop-Within (suc f) m left (op div) rest lt h = lt
    expr_loop-Within (suc f) m left eof rest lt h = lt
    expr_loop-Within (suc f) m left lparen rest lt h = lt
    expr_loop-Within (suc f) m left rparen rest lt h = lt
    expr_loop-Within (suc f) m left (Token.number w) rest lt h = lt
    expr_loop-Within (suc f) m left (ident w) rest lt h = lt

    parse_term-Within :
        (f : ℕ) (s : State)
        → 4 * measure s + 2 ≤ f
        → Within (Below {A = MetricExpr F} (measure s)) (parse_term f s)
    parse_term-Within zero s h = omega (arith, h)
    parse_term-Within (suc f) s h =
        Within-bind (Below (measure s)) (Below (measure s)) _ _
          (parse_factor-Within f s.cur s.rest (omega (arith, h)))
          (λ (left, s') lt.
            term_loop-Within f (measure s) left s'.cur s'.rest lt (omega (arith, h, lt)))

    term_loop-Within :
        (f m : ℕ) (left : MetricExpr F) (t : Token) (rest : Text)
        → measure (record { cur = t; rest = rest }) < m
        → 4 * measure (record { cur = t; rest = rest }) + 1 ≤ f
        → Within (Below m) (term_loop f left (record { cur = t; rest = rest }))
    term_loop-Within zero m left t rest lt h = omega (arith, h)
    term_loop-Within (suc f) m left (op mul) rest lt h =
        Within-bind (Below (measure (at_start rest))) (Below m) _ _
          (parse_factor-Within f _ _ (omega (arith, h, measure-at_start rest)))
          (λ (right, s') below.
            term_loop-Within f m _ s'.cur s'.rest (omega (arith, lt, below, measure-at_start rest))
              (omega (arith, h, below, measure-at_start rest)))
    term_loop-Within (suc f) m left (op div) rest lt h =
        Within-bind (Below (measure (at_start rest))) (Below m) _ _
          (parse_factor-Within f _ _ (omega (arith, h, measure-at_start rest)))
          (λ (right, s') below.
            term_loop-Within f m _ s'.cur s'.rest (omega (arith, lt, below, measure-at_start rest))
              (omega (arith, h, below, measure-at_start rest)))
    term_loop-Within (suc f) m left (op add) rest lt h = lt
    term_loop-Within (suc f) m left (op sub) rest lt h = lt
    term_loop-Within (suc f) m left eof rest lt h = lt
    term_loop-Within (suc f) m left lparen rest lt h = lt
    term_loop-Within (suc f) m left rparen rest lt h = lt
    term_loop-Within (suc f) m left (Token.number w) rest lt h = lt
    term_loop-Within (suc f) m left (ident w) rest lt h = lt

    parse_factor-Within :
        (f : ℕ) (t : Token) (rest : Text)
        → 4 * measure (record { cur = t; rest = rest }) + 1 ≤ f
        → Within
            (Below {A = MetricExpr F} (measure (record { cur = t; rest = rest })))
            (parse_factor f (record { cur = t; rest = rest }))
    parse_factor-Within zero t rest h = omega (arith, h)
    parse_factor-Within (suc f) eof rest h = tt
    parse_factor-Within (suc f) rparen rest h = tt
    parse_factor-Within (suc f) (op add) rest h = tt
    parse_factor-Within (suc f) (op mul) rest h = tt
    parse_factor-Within (suc f) (op div) rest h = tt
    parse_factor-Within (suc f) (Token.number w) rest h = number_result-Within (fl.parse w) rest
    parse_factor-Within (suc f) (ident w) rest h = omega (arith, measure-at_start rest)
    parse_factor-Within (suc f) (op sub) rest h =
        Within-bind (Below (measure (at_start rest))) (Below (suc (length rest))) _ _
          (parse_factor-Within f _ _ (omega (arith, h, measure-at_start rest)))
          (λ r below. omega (arith, below, measure-at_start rest))
    parse_factor-Within (suc f) lparen rest h =
        Within-bind (Below (measure (at_start rest))) (Below (suc (length rest))) _ _
          (parse_expr-Within f (at_start rest) (omega (arith, h, measure-at_start rest)))
          (λ (e, s') below.
            close-Within _ e s'.cur s'.rest (omega (arith, below, measure-at_start rest)))

  -- Every input is read to an expression or to an error: the fuel of `parse_metric_expr`, four units
  -- for a byte and eight more, never runs out.
  pub parse_metric_expr_total : (input : Text) → parse_metric_expr {F = F} input ≢ out_of_fuel
  unfolding parse_metric_expr
  parse_metric_expr_total input = Within-ne _ (
      Within-bind (Below (measure (at_start input))) (λ _. Unit) _ _
        (parse_expr-Within _ (at_start input) (omega (arith, measure-at_start input)))
        (λ (e, s) below. finish-Within e s.cur s.rest))
