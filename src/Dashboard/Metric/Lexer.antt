-- ===== src/Dashboard/Metric/Lexer.antt =====
-- metricLexer of dashboard/dashboard.go: the input that is left in place of the position in it.
use mini_edr.Prelude.{ℕ, Text, Bool, ◌||◌, ◌&&◌, [], ◌∷◌, leb, ◌==◌, nat_eq, if◌then◌else◌}
use mini_edr.Dashboard.Metric.Expr.{Op, add, sub, mul, div}

-- metricToken: its type, and its text for a number and a name.
pub data Token : Type 0 where
  eof lparen rparen : Token
  number ident : Text → Token
  op : Op → Token

unfoldable pub is_digit : ℕ → Bool
is_digit b = leb b'0' b && leb b b'9'

unfoldable pub is_ident_start : ℕ → Bool
is_ident_start b =
    (leb b'a' b && leb b b'z') || (leb b'A' b && leb b b'Z') || b == b'_' || b == b'.'

unfoldable pub is_ident_part : ℕ → Bool
is_ident_part b = is_ident_start b || is_digit b

-- A digit or a point.
unfoldable pub is_number_part : ℕ → Bool
is_number_part b = is_digit b || b == b'.'

-- for l.pos < len(l.input) && p(l.input[l.pos]) { l.pos++ }
unfoldable pub span : (ℕ → Bool) → Text → Text × Text
span p [] = ([], [])
span p (c ∷ s) = let (word, rest) = span p s in if p c then (c ∷ word, rest) else ([], c ∷ s)

unfoldable pub skip_spaces : Text → Text
skip_spaces [] = []
skip_spaces (c ∷ s) = let rest = skip_spaces s in if c == b' ' then rest else c ∷ s

-- The switch of nextToken; a byte that starts no token is skipped and gives the end of the input.
unfoldable pub token_at : Text → Token × Text
token_at [] = (eof, [])
token_at (c ∷ s) =
    if c == b'+'
    then (op add, s)
    else if c == b'-'
    then (op sub, s)
    else if c == b'*'
    then (op mul, s)
    else if c == b'/'
    then (op div, s)
    else if c == b'('
    then (lparen, s)
    else if c == b')'
    then (rparen, s)
    else if is_number_part c
    then (let (word, rest) = span is_number_part s in (number (c ∷ word), rest))
    else if is_ident_start c
    then (let (word, rest) = span is_ident_part s in (ident (c ∷ word), rest))
    else (eof, s)

-- (*metricLexer).nextToken
unfoldable pub next_token : Text → Token × Text
next_token s = token_at (skip_spaces s)
