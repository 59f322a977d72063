-- ===== src/Tests/Auth.antt =====
-- authorize of dashboard/dashboard.go: runs and instances.
use mini_edr.Prelude.Strings.{trim_space, to_lower, has_prefix}
use mini_edr.Prelude.{text_eq, text_beq, bytes, true, false, [], ◌∷◌, some, ◌≡◌, refl}
use mini_edr.Dashboard.Cookie.{
  is_cookie_byte, is_cookie_text, sent_cookie, read_cookie, first_cookie, unquoted, before_quote,
  cookie_bytes, has_separator,
}
use mini_edr.Dashboard.Auth.{AuthRequest, nothing, extract_auth_token, admit, authorize}
use mini_edr.Dashboard.Auth.Login.{with_cookie, authorize-with_cookie}

abbrev by_query : AuthRequest
by_query = record {
  edr_token = [];
  authorization = bytes "Basic x";
  cookies = bytes "old\\" ∷ [];
  query_token = bytes " s 3 ";
}

-- A token with a space comes back in quotes.
authorize-with_cookie_example :
    authorize (bytes "s 3") (some (with_cookie (sent_cookie (bytes "s 3")))) ≡ (true, nothing)
unfolding authorize admit extract_auth_token trim_space to_lower has_prefix text_beq first_cookie
    read_cookie unquoted before_quote is_cookie_text is_cookie_byte
authorize-with_cookie_example =
    authorize-with_cookie (bytes "s 3") (some by_query) (sent_cookie (bytes "s 3")) refl refl refl

-- A token with a semicolon is cut short, and the cookie is not let in.
cut_short_run : (authorize (bytes "a;b") (some (with_cookie (sent_cookie (bytes "a;b"))))).0 ≡ false
unfolding authorize admit extract_auth_token trim_space to_lower has_prefix text_beq first_cookie
    read_cookie unquoted before_quote is_cookie_text is_cookie_byte sent_cookie cookie_bytes
    has_separator
cut_short_run = refl
