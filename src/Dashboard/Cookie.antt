-- ===== src/Dashboard/Cookie.antt =====
-- The values of cookies in net/http, for the cookie of dashboard/dashboard.go: SetCookie and Cookie.
use mini_edr.Prelude.{
  ℕ, leb, ltb, ◌==◌, ◌!=◌, nat_eq, Text, Bool, true, false, ◌&&◌, ◌||◌, List, [], ◌∷◌, ◌++◌, Option,
  none, some, if◌then◌else◌, Bool-cases, inl, inr, ◌≡◌, refl, arith,
}

abbrev quote : ℕ
quote = 34

-- validCookieValueByte: printable ASCII without `"`, `;` and the backslash
unfoldable pub is_cookie_byte : ℕ → Bool
is_cookie_byte b = (leb 32 b && ltb b 127) && (b != quote && (b != b';' && b != 92))

-- The bytes that a cookie can carry
unfoldable pub cookie_bytes : Text → Text
cookie_bytes [] = []
cookie_bytes (b ∷ s) = let rest = cookie_bytes s in if is_cookie_byte b then b ∷ rest else rest

unfoldable pub has_separator : Text → Bool
has_separator [] = false
has_separator (b ∷ s) = (b == b' ' || b == b',') || has_separator s

-- What SetCookie writes for a value: other bytes are dropped, and a space or a comma needs quotes.
unfoldable pub sent_cookie : Text → Text
sent_cookie value =
    let kept = cookie_bytes value in
    if has_separator kept then quote ∷ (kept ++ quote ∷ []) else kept

-- The text before the quote that it ends with
unfoldable pub before_quote : Text → Option Text
before_quote [] = none
before_quote (b ∷ []) = if b == quote then some [] else none
before_quote (b ∷ c ∷ s) = elim (before_quote (c ∷ s)) [ none ↦ none | some t ↦ some (b ∷ t) ]

unfoldable pub unquoted : Text → Text
unquoted [] = []
unquoted (b ∷ s) = if b == quote then elim (before_quote s) [ none ↦ b ∷ s | some t ↦ t ] else b ∷ s

unfoldable pub is_cookie_text : Text → Bool
is_cookie_text [] = true
is_cookie_text (b ∷ s) = is_cookie_byte b && is_cookie_text s

-- How a value of the Cookie header is read; `none` for one that is not valid.
unfoldable pub read_cookie : Text → Option Text
read_cookie raw = if is_cookie_text (unquoted raw) then some (unquoted raw) else none

-- Cookie: the first valid one of the cookies with the name
unfoldable pub first_cookie : List Text → Option Text
first_cookie [] = none
first_cookie (raw ∷ raws) =
    let rest = first_cookie raws in elim (read_cookie raw) [ none ↦ rest | some value ↦ some value ]

cookie_bytes_all : (s : Text) → is_cookie_text s ≡ true → cookie_bytes s ≡ s
unfolding cookie_bytes is_cookie_text
cookie_bytes_all [] h = refl
cookie_bytes_all (b ∷ s) h = ground (arith, h, cookie_bytes_all s)

before_quote-append : (s : Text) → before_quote (s ++ quote ∷ []) ≡ some s
unfolding before_quote
before_quote-append [] = refl
before_quote-append (b ∷ []) = refl
before_quote-append (b ∷ c ∷ s) = rw (before_quote-append (c ∷ s)) refl

unquoted-same : (s : Text) → is_cookie_text s ≡ true → unquoted s ≡ s
unfolding unquoted is_cookie_text is_cookie_byte
unquoted-same [] h = refl
unquoted-same (b ∷ s) h = ground (arith, h)

unquoted-quoted : (s : Text) → unquoted (quote ∷ (s ++ quote ∷ [])) ≡ s
unfolding unquoted
unquoted-quoted s = rw (before_quote-append s) refl

pub read_cookie-sent_cookie :
    (value : Text) → is_cookie_text value ≡ true → read_cookie (sent_cookie value) ≡ some value
unfolding read_cookie sent_cookie
read_cookie-sent_cookie value valid = elim (Bool-cases (has_separator value)) [
  | inl some_there ↦
      rw (cookie_bytes_all value valid, some_there, unquoted-quoted value, valid) refl
  | inr plain ↦ rw (cookie_bytes_all value valid, plain, unquoted-same value valid, valid) refl
]
