-- ===== src/Dashboard/Auth.antt =====
-- SetAuthToken, extractAuthToken and authorize of dashboard/dashboard.go.
pub mod Login
use mini_edr.Dashboard.Cookie.{sent_cookie, first_cookie}
use mini_edr.Prelude.Strings.{trim_space, to_lower, has_prefix}
use mini_edr.Prelude.{
  ℕ, zero, suc, Text, text_eq, bytes, Bool, true, false, not, ◌||◌, ◌!=◌, List, [], ◌∷◌, Option,
  none, some, is_empty, if◌then◌else◌,
}

-- What net/http gives for the two headers and the query of a request, "" for one that is missing, and
-- the values under the name of the cookie as they stand in the Cookie header.
pub record AuthRequest : Type 0 where
  pub edr_token : Text
  pub authorization : Text
  pub cookies : List Text
  pub query_token : Text

-- What authorize does to the response; a cookie with the value that SetCookie writes
pub data AuthReply : Type 0 where
  nothing unauthorized : AuthReply
  set_cookie : Text → AuthReply

-- s[n:] for n <= len(s)
abbrev pub drop_bytes : ℕ → Text → Text
drop_bytes zero s = s
drop_bytes (suc n) [] = []
drop_bytes (suc n) (c ∷ s) = drop_bytes n s

-- SetAuthToken
unfoldable pub set_auth_token : Text → Text
set_auth_token token = trim_space token

abbrev pub cookie_token : Option Text → Text
cookie_token none = []
cookie_token (some value) = trim_space value

-- The token, and whether it came from the query.
unfoldable pub extract_auth_token : Option AuthRequest → Text × Bool
extract_auth_token none = ([], false)
extract_auth_token (some r) =
    if not (is_empty (trim_space r.edr_token))
    then (trim_space r.edr_token, false)
    else if has_prefix (to_lower (trim_space r.authorization)) (bytes "bearer ")
    then (trim_space (drop_bytes 7 (trim_space r.authorization)), false)
    else if not (is_empty (cookie_token (first_cookie r.cookies)))
    then (cookie_token (first_cookie r.cookies), false)
    else if not (is_empty (trim_space r.query_token))
    then (trim_space r.query_token, true)
    else ([], false)

-- The decision for the token of a request.
unfoldable pub admit : Text → Text × Bool → Bool × AuthReply
admit token (req_token, from_query) =
    if is_empty req_token || req_token != token
    then (false, unauthorized)
    else if from_query
    then (true, set_cookie (sent_cookie req_token))
    else (true, nothing)

unfoldable pub authorize : Text → Option AuthRequest → Bool × AuthReply
authorize token r = if is_empty token then (true, nothing) else admit token (extract_auth_token r)
