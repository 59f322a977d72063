-- ===== src/Dashboard/Auth/Login.antt =====
-- Who authorize of dashboard/dashboard.go lets in.
use mini_edr.Prelude.Strings.{trim_space, to_lower, has_prefix}
use mini_edr.Prelude.{
  Text, text_eq, text_beq_iff, true, false, [], ◌∷◌, Option, some, ◌≡◌, ◌≢◌, ◌⊎◌, ◌↔◌, sym, subst,
  arith,
}
use mini_edr.Dashboard.Cookie.{
  is_cookie_text, sent_cookie, read_cookie, first_cookie, read_cookie-sent_cookie,
}
use mini_edr.Dashboard.Auth.{AuthRequest, nothing, set_cookie, extract_auth_token, admit, authorize}

-- A request with one cookie and nothing else
abbrev pub with_cookie : Text → AuthRequest
with_cookie raw = record {
  edr_token = [];
  authorization = [];
  cookies = raw ∷ [];
  query_token = [];
}

-- A request is let in exactly if no token is set, or if the token that it carries is the one set.
authorize_iff :
    (token : Text) (r : Option AuthRequest)
    → ((authorize token r).0 ≡ true) ↔ ((token ≡ []) ⊎ ((extract_auth_token r).0 ≡ token))
unfolding authorize admit
authorize_iff token r = ground (arith, text_beq_iff (extract_auth_token r).0 token)

authorize_cookie :
    (token : Text) (r : Option AuthRequest) (sent : Text)
    → (authorize token r).1 ≡ set_cookie sent
    → (sent ≡ sent_cookie token) × (token ≢ [])
unfolding authorize admit
authorize_cookie token r sent h = ground (arith, h, text_beq_iff (extract_auth_token r).0 token)

first_cookie_one :
    (raw value : Text) → read_cookie raw ≡ some value → first_cookie (raw ∷ []) ≡ some value
unfolding first_cookie
first_cookie_one raw value reads = ground (arith, reads)

extract-with_cookie :
    (raw value : Text)
    → read_cookie raw ≡ some value
    → value ≢ []
    → trim_space value ≡ value
    → extract_auth_token (some (with_cookie raw)) ≡ (value, false)
unfolding extract_auth_token trim_space to_lower has_prefix
extract-with_cookie raw value reads full trimmed =
    ground (arith, trimmed, first_cookie_one raw value reads)

authorize-own_cookie :
    (token : Text)
    → token ≢ []
    → trim_space token ≡ token
    → is_cookie_text token ≡ true
    → authorize token (some (with_cookie (sent_cookie token))) ≡ (true, nothing)
unfolding authorize admit
authorize-own_cookie token full trimmed valid =
    let reads = read_cookie-sent_cookie token valid in
    ground (
      arith,
      full,
      extract-with_cookie (sent_cookie token) token reads full trimmed,
      text_beq_iff token token,
    )

-- If a request with the token in its query gets a cookie, then a later request that carries only this
-- cookie is let in, and gets no new cookie. The token that was set has no space around it and consists
-- of bytes that a cookie can carry: printable ASCII without `"`, `;` and the backslash, since SetCookie
-- drops the others. It writes quotes around a value with a space or a comma, and Cookie removes them.
pub authorize-with_cookie :
    (token : Text) (r : Option AuthRequest) (sent : Text)
    → trim_space token ≡ token
    → is_cookie_text token ≡ true
    → (authorize token r).1 ≡ set_cookie sent
    → authorize token (some (with_cookie sent)) ≡ (true, nothing)
authorize-with_cookie token r sent trimmed valid h =
    let (same, full) = authorize_cookie token r sent h in
    subst (λ v. authorize token (some (with_cookie v)) ≡ (true, nothing)) (sym same)
      (authorize-own_cookie token full trimmed valid)
